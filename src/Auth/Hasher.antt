-- ===== src/Auth/Hasher.antt =====
-- The password hasher (internal/infrastructure/auth/bcrypt_hasher.go) over the library bcrypt.
use research_monitor.Base.{ℕ, ◌≡◌, String, List, [], ◌∷◌, Option, none, some, if◌then◌else◌}
use research_monitor.Text.{is_empty}
use research_monitor.Http.{GoError, sentinel, hash_mismatch}
use research_monitor.Auth.Types.{Result, ok, err}

-- `CompareHashAndPassword`: nil, `ErrMismatchedHashAndPassword`, or another error.
pub data Comparison : Type 0 where
  matches mismatched unreadable : Comparison

-- `golang.org/x/crypto/bcrypt`. A hash also depends on a salt that the library draws.
pub record Bcrypt : Type 0 where
  pub generate : ℕ → ℕ → List ℕ → Option String
  pub compare : String → List ℕ → Comparison
  -- A generated hash compares equal to the password that it was made of.
  pub compare-generate :
      (cost salt : ℕ) (plain : List ℕ) (hash : String)
      → generate cost salt plain ≡ some hash
      → compare hash plain ≡ matches

module _ (b : Bcrypt) where
  open b use {generate, compare}

  abbrev pub generated : Option String → Result String
  generated none = err []
  generated (some h) = ok h

  unfoldable pub hash : ℕ → ℕ → List ℕ → Result String
  hash cost salt plain = if is_empty plain then err [] else generated (generate cost salt plain)

  -- `none` is the nil error.
  abbrev pub compared : Comparison → Option GoError
  compared matches = none
  compared mismatched = some (sentinel hash_mismatch ∷ [])
  compared unreadable = some []

  unfoldable pub verify : List ℕ → String → Option GoError
  verify plain h = compared (compare h plain)
