-- ===== src/Examples/Accounts.antt =====
-- Concrete libraries for the users: ids that are their own text, hashes that list the bytes, and
-- tokens for one subject.
use Prim.Native.String.{◌∷◌ as text_cons}
use mathlib.Core.Path.{subst}
use mathlib.Core.Option.{some-injective}
use research_monitor.Base.{
  ℕ, zero, suc, ◌*◌, ◌<◌, ◌≤◌, ◌≡◌, refl, sym, ap, ◌∙◌, inl, inr, true, false, String, List, [],
  ◌∷◌, Option, none, some, str_eq, eq_iff, ltb, Bool-cases, if◌then◌else◌, arith,
}
use research_monitor.Auth.Types.{Uuids, Result, ok, err}
use research_monitor.Auth.Hasher.{Bcrypt, Comparison, matches, mismatched, unreadable}
use research_monitor.Auth.Tokens.{
  Jwt, Claims, Method, hmac, Parsed, rejected, parsed, jwt_expired, jwt_signature_invalid,
  jwt_malformed, from_key, nanoseconds,
}
use research_monitor.Auth.UseCase.{same_bytes}

abbrev pub plain_ids : Uuids String
plain_ids = record { print = λ u. u; parse = λ s. some s; parse-print = λ u. refl }

abbrev tally : ℕ → String → String
tally zero s = text_cons "." s
tally (suc n) s = text_cons "i" (tally n s)

abbrev pub marks : List ℕ → String
marks [] = "$"
marks (c ∷ cs) = tally c (marks cs)

abbrev compare_marks : String → List ℕ → Comparison
compare_marks h plain =
    if str_eq h (marks plain) then matches else if str_eq h "" then unreadable else mismatched

pub marks_match :
    (plain : List ℕ) (h : String) → some (marks plain) ≡ some h → compare_marks h plain ≡ matches
marks_match plain h e = rw ((eq_iff h (marks plain)).1 (sym (some-injective _ _ e))) refl

abbrev pub marking : Bcrypt
marking = record {
  generate = λ cost salt plain. some (marks plain);
  compare = compare_marks;
  compare-generate = λ cost salt plain h e. marks_match plain h e;
}

same_bytes_refl : (s : List ℕ) → same_bytes s s ≡ true
same_bytes_refl [] = refl
same_bytes_refl (c ∷ s) = ground (arith, same_bytes_refl s)

lt→ltb : (a b : ℕ) → a < b → ltb a b ≡ true
lt→ltb a b h = ground arith

le→not_ltb : (a b : ℕ) → b ≤ a → ltb a b ≡ false
le→not_ltb a b h = ground arith

-- Tokens are for the subject `u1` alone.
abbrev sign_u1 : List ℕ → Claims → Option (List ℕ)
sign_u1 secret c =
    if str_eq c.subject "u1" then some (c.issued_at ∷ (c.expires_at ∷ secret)) else none

abbrev u1_claims : ℕ → ℕ → Claims
u1_claims iat exp = record { subject = "u1"; issued_at = iat; expires_at = exp }

abbrev under_key : ℕ → ℕ → ℕ → List ℕ → Result (List ℕ) → Parsed
under_key now iat exp s (err e) = rejected (from_key e ∷ [])
under_key now iat exp s (ok secret) =
    if same_bytes secret s
    then if ltb now (exp * nanoseconds)
      then parsed true (u1_claims iat exp)
      else rejected (jwt_expired ∷ [])
    else rejected (jwt_signature_invalid ∷ [])

abbrev parse_u1 : (Method → Result (List ℕ)) → ℕ → List ℕ → Parsed
parse_u1 key now (iat ∷ (exp ∷ s)) = under_key now iat exp s (key hmac)
parse_u1 key now _ = rejected (jwt_malformed ∷ [])

module _ (key : Method → Result (List ℕ)) (secret : List ℕ) (c : Claims) (token : List ℕ) (now : ℕ)
    (signed : sign_u1 secret c ≡ some token) (opens : key hmac ≡ ok secret) where
  is_u1 : (c.subject ≡ "u1") × (c.issued_at ∷ (c.expires_at ∷ secret) ≡ token)
  is_u1 = elim (Bool-cases (str_eq c.subject "u1")) [
    | inl hit ↦ (
      (eq_iff c.subject "u1").0 hit,
      some-injective _ _ (
          subst
            (λ b. (if b then some (c.issued_at ∷ (c.expires_at ∷ secret)) else none) ≡ some token)
            hit signed),
    )
    | inr miss ↦ absurd (ground (arith, miss, signed))
  ]

  parsed-eq : parse_u1 key now token ≡ under_key now c.issued_at c.expires_at secret (ok secret)
  parsed-eq =
      subst (λ s. parse_u1 key now s ≡ under_key now c.issued_at c.expires_at secret (ok secret))
        is_u1.1 (ap (under_key now c.issued_at c.expires_at secret) opens)

  pub parse_timely : now < c.expires_at * nanoseconds → parse_u1 key now token ≡ parsed true c
  parse_timely h =
      parsed-eq
      ∙ rw (same_bytes_refl secret, lt→ltb now (c.expires_at * nanoseconds) h)
          (ap
            (λ s.
              parsed true
                (record { subject = s; issued_at = c.issued_at; expires_at = c.expires_at }))
            (sym is_u1.0))

  pub parse_late :
      c.expires_at * nanoseconds ≤ now → parse_u1 key now token ≡ rejected (jwt_expired ∷ [])
  parse_late h =
      parsed-eq ∙ rw (same_bytes_refl secret, le→not_ltb now (c.expires_at * nanoseconds) h) refl

pub not_empty : (secret : List ℕ) (c : Claims) → sign_u1 secret c ≡ some [] → ⊥
not_empty secret c e = ground arith

abbrev pub one_subject : Jwt
one_subject = record {
  sign = sign_u1;
  parse = parse_u1;
  sign-ne-nil = not_empty;
  parse-sign = parse_timely;
  parse-late = parse_late;
}
