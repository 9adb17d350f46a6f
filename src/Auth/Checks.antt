-- ===== src/Auth/Checks.antt =====
-- The checks before a login and before a change of the password, and the hash of the new one.
use research_monitor.Base.{
  ℕ, zero, suc, ◌<◌, ◌≡◌, refl, sym, ◌⊎◌, inl, inr, Bool, true, false, ◌||◌, String, List, [], ◌∷◌,
  none, some, get_elem?, count_if, ltb, length, str_eq, if◌then◌else◌, arith, Bool-cases,
  Option-cases,
}
use mathlib.Core.Path.{subst}
use mathlib.Core.Option.{some-injective}
use research_monitor.Text.{is_empty}
use research_monitor.Http.{GoError, ErrorBody, with_reason}
use research_monitor.Auth.Types.{
  ChangePasswordRequest, LoginRequest, ok, err, validate_change, validate_login, validation_failed,
  password_too_long, bcrypt_input_max_bytes, new_password_min_bytes,
  reason_password_policy_violation,
}
use research_monitor.Auth.Repository.{Model}
use research_monitor.Auth.Hasher.{Bcrypt, hash}

pub count-at :
    (p : Model → Bool) (rows : List Model) (i : ℕ) (m : Model)
    → get_elem? rows i ≡ some m
    → p m ≡ true
    → 0 < count_if p rows
count-at p [] i m at hit = absurd (ground arith)
count-at p (n ∷ rows) zero m at hit =
    let first : p n ≡ true = subst (λ x. p x ≡ true) (sym (some-injective _ _ at)) hit in
    rw first (ground arith)
count-at p (n ∷ rows) (suc i) m at hit = ground (arith, count-at p rows i m at hit)

pub hash-cases :
    (b : Bcrypt) (cost salt : ℕ) (plain : List ℕ)
    → ((hash b cost salt plain ≡ err [])
        × ((is_empty plain ≡ true) ⊎ (b.generate cost salt plain ≡ none)))
      ⊎ ((h : String) × (b.generate cost salt plain ≡ some h) × (hash b cost salt plain ≡ ok h))
unfolding hash
hash-cases b cost salt plain = elim (Bool-cases (is_empty plain)) [
  | inl blank ↦ inl (rw blank refl, inl blank)
  | inr given ↦ elim (Option-cases (b.generate cost salt plain)) [
    | inl e ↦ inl (rw (given, e) refl, inr e)
    | inr (h, e) ↦ inr (h, e, rw (given, e) refl)
  ]
]

-- A validation error has status 400 and a reason.
abbrev pub Is400 : GoError → Type 0
Is400 e = (message : String) × (reason : String) × (e ≡ with_reason 400 message reason [])

pub validate_change-Is400 :
    (r : ChangePasswordRequest) (e : GoError) → validate_change r ≡ some e → Is400 e
unfolding validate_change
validate_change-Is400 r e =
    go (is_empty r.current_password || is_empty r.new_password)
      (ltb bcrypt_input_max_bytes (length r.current_password))
      (ltb bcrypt_input_max_bytes (length r.new_password))
      (ltb (length r.new_password) new_password_min_bytes)
  where
    go :
        (missing long long' short : Bool)
        → (if missing
            then some
                (with_reason 400 "current and new passwords are required" validation_failed [])
            else if long
            then some (with_reason 400 "current password exceeds 72 bytes" password_too_long [])
            else if long'
            then some (with_reason 400 "new password exceeds 72 bytes" password_too_long [])
            else if short
            then some (
                with_reason 400 "new password must be at least 12 bytes"
                  reason_password_policy_violation [])
            else none)
          ≡ some e
        → Is400 e
    go true long long' short h = (_, _, sym (some-injective _ _ h))
    go false true long' short h = (_, _, sym (some-injective _ _ h))
    go false false true short h = (_, _, sym (some-injective _ _ h))
    go false false false true h = (_, _, sym (some-injective _ _ h))
    go false false false false h = absurd (ground arith)

abbrev pub bad_request : String → String → ErrorBody
bad_request message reason = record { code = 400; message = message; details = some reason }

pub validate_login-Is400 :
    (is_address : String → Bool) (r : LoginRequest) (e : GoError)
    → validate_login is_address r ≡ some e
    → Is400 e
unfolding validate_login
validate_login-Is400 is_address r e =
    go (str_eq r.email "" || is_empty r.password) (is_address r.email)
      (ltb bcrypt_input_max_bytes (length r.password))
  where
    go :
        (missing address long : Bool)
        → (if missing
            then some (with_reason 400 "email and password are required" validation_failed [])
            else if address
            then if long
              then some (with_reason 400 "password exceeds 72 bytes" password_too_long [])
              else none
            else some (with_reason 400 "email is not a valid address" validation_failed []))
          ≡ some e
        → Is400 e
    go true address long h = (_, _, sym (some-injective _ _ h))
    go false true true h = (_, _, sym (some-injective _ _ h))
    go false true false h = absurd (ground arith)
    go false false long h = (_, _, sym (some-injective _ _ h))
