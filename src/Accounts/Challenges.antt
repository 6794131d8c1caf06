-- ===== src/Accounts/Challenges.antt =====
-- backend/v2/login_service.py: the challenges of a login with a second factor, and the secrets of a
-- registration, which live in the process.
use agent_craft.Prelude.{
  ℕ, ◌+◌, Bool, not, ◌==◌, leb, if◌then◌else◌, Option, none, some, List, [], ◌∷◌, ◌++◌, select,
  find, any, update_where,
}
use agent_craft.Accounts.Service.{Service, returned, Challenge, PendingSecret}

-- ttl_seconds and max_attempts of MfaChallengeStore, and ttl_seconds of PendingMfaSecretStore
abbrev pub challenge_ttl : ℕ
challenge_ttl = 300

abbrev pub challenge_attempts : ℕ
challenge_attempts = 5

abbrev pub secret_ttl : ℕ
secret_ttl = 600

-- _prune keeps what is younger than the time to live.
abbrev pub is_current : ℕ → Challenge → Bool
is_current now c = not (leb (c.created_at + challenge_ttl) now)

abbrev pub prune : ℕ → List Challenge → List Challenge
prune now cs = select (is_current now) cs

abbrev pub has_id : ℕ → Challenge → Bool
has_id id c = c.id == id

-- An assignment to a key of the dictionary.
abbrev set_challenge : Challenge → List Challenge → List Challenge
set_challenge c cs =
    if any (has_id c.id) cs then update_where (has_id c.id) (λ _. c) cs else cs ++ c ∷ []

abbrev pub without : ℕ → List Challenge → List Challenge
without id cs = select (λ c. not (has_id id c)) cs

-- create, with the drawn id
abbrev pub create_entry : ℕ → ℕ → ℕ → List Challenge → List Challenge
create_entry id user_id now cs =
    set_challenge (record { id = id; user_id = user_id; created_at = now; attempts = 0 })
      (prune now cs)

unfoldable pub create_challenge : ℕ → ℕ → ℕ → Service ℕ
create_challenge id user_id now w =
    returned id (record w { challenges = create_entry id user_id now w.challenges })

-- get
abbrev pub entry_of : ℕ → ℕ → List Challenge → Option Challenge
entry_of id now cs = find (has_id id) (prune now cs)

unfoldable pub get_challenge : ℕ → ℕ → Service (Option Challenge)
get_challenge id now w =
    returned (entry_of id now w.challenges) (record w { challenges = prune now w.challenges })

abbrev failed_once : Challenge → Challenge
failed_once c = record c { attempts = c.attempts + 1 }

abbrev pub fail_entry : Option Challenge → List Challenge → List Challenge
fail_entry none cs = cs
fail_entry (some c) cs =
    if leb challenge_attempts (c.attempts + 1)
    then without c.id cs
    else update_where (has_id c.id) (λ _. failed_once c) cs

-- record_failure: the fifth failure destroys the challenge.
unfoldable pub record_failure : ℕ → Service (Unit {0})
record_failure id w =
    returned tt (record w { challenges = fail_entry (find (has_id id) w.challenges) w.challenges })

-- destroy
unfoldable pub destroy : ℕ → Service (Unit {0})
destroy id w = returned tt (record w { challenges = without id w.challenges })

abbrev is_current_secret : ℕ → PendingSecret → Bool
is_current_secret now s = not (leb (s.created_at + secret_ttl) now)

abbrev pub prune_secrets : ℕ → List PendingSecret → List PendingSecret
prune_secrets now ss = select (is_current_secret now) ss

abbrev is_users : ℕ → PendingSecret → Bool
is_users user_id s = s.user_id == user_id

abbrev without_secret : ℕ → List PendingSecret → List PendingSecret
without_secret user_id ss = select (λ s. not (is_users user_id s)) ss

-- put: a second registration replaces the first.
unfoldable pub put_secret : ℕ → ℕ → ℕ → Service (Unit {0})
put_secret user_id secret now w = returned tt (record w {
  secrets =
      without_secret user_id (prune_secrets now w.secrets)
      ++ record { user_id = user_id; secret = secret; created_at = now } ∷ [];
})

abbrev secret_in : Option PendingSecret → Option ℕ
secret_in none = none
secret_in (some s) = some s.secret

-- PendingMfaSecretStore.get
unfoldable pub get_secret : ℕ → ℕ → Service (Option ℕ)
get_secret user_id now w =
    let kept = prune_secrets now w.secrets in
    returned (secret_in (find (is_users user_id) kept)) (record w { secrets = kept })

-- pop
unfoldable pub pop_secret : ℕ → Service (Unit {0})
pop_secret user_id w = returned tt (record w { secrets = without_secret user_id w.secrets })
