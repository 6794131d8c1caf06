-- ===== src/Accounts/Primitives.antt =====
-- The code that the account services call and that is not in the repository: hashlib, hmac, argon2,
-- email_validator, pyotp and the cipher. Each request is given one record of it.
use agent_craft.Prelude.{ℕ, Bool, Option}
use agent_craft.Accounts.Rows.{Email}

pub record Primitives : Type 0 where
  -- hash_token of backend/v2/security.py, SHA-256
  pub hash_token : ℕ → ℕ
  -- The text of an id, as a token is a text.
  pub text_of_id : ℕ → ℕ
  -- hmac_subject for the kinds "email", "ip" and "user"
  pub hmac_email : Email → ℕ
  pub hmac_ip : ℕ → ℕ
  pub hmac_user : ℕ → ℕ
  -- verify_password: Argon2id on a password and a hash
  pub verify_password : ℕ → ℕ → Bool
  -- strip and lower
  pub fold_email : Email → Email
  -- validate_email, none where it refuses the address
  pub validate_email : Email → Option Email
  -- decrypt_text of a user's envelope, none for an EncryptionError
  pub decrypt_secret : (user_id : ℕ) → (envelope : ℕ) → Option ℕ
  -- TOTP(secret).verify(code) at a time
  pub totp_verify : (secret : ℕ) → (code : ℕ) → (now : ℕ) → Bool
