-- ===== src/Files/Names.antt =====
-- backend/v2/task_file_service.py: the names of files.
use Prim.Native.Char.{code}
use Prim.Native.String.{String}
use text.Mathlib.Text.{◌==◌}
use agent_craft.Prelude.{ℕ, Bool, false, not, ◌&&◌, ◌||◌, leb, ltb, List, [], ◌∷◌, any, length}

-- unicodedata: the category Cc of a character, and the normal form NFC of a text.
pub record Unicode : Type 0 where
  pub is_control : ℕ → Bool
  pub nfc : String → String

abbrev pub codes : String → List ℕ
codes String.[] = []
codes (String.◌∷◌ c s) = code c ∷ codes s

abbrev pub same_text : String → String → Bool
same_text a b = a == b

-- _FILE_NAME_MAX_CHARS
abbrev pub file_name_max_chars : ℕ
file_name_max_chars = 255

abbrev is_code : ℕ → ℕ → Bool
is_code a b = leb a b && leb b a

-- `/` and `\`
abbrev is_separator : ℕ → Bool
is_separator c = is_code c 47 || is_code c 92

-- _validate_file_name
abbrev pub is_valid_name : Unicode → String → Bool
is_valid_name unicode name =
    let cs = codes name in
    (ltb 0 (length cs) && leb (length cs) file_name_max_chars)
    && (not (any unicode.is_control cs)
        && (not (any is_separator cs) && not (same_text name "." || same_text name "..")))

abbrev pub same_name : Unicode → String → String → Bool
same_name unicode a b = same_text (unicode.nfc a) (unicode.nfc b)

-- Whether two names of a batch have one normal form.
abbrev pub repeats : Unicode → List String → Bool
repeats unicode [] = false
repeats unicode (x ∷ xs) = any (same_name unicode x) xs || repeats unicode xs
