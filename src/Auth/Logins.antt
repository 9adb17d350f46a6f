-- ===== src/Auth/Logins.antt =====
-- What `POST /auth/login` answers.
use research_monitor.Base.{
  ℕ, ◌+◌, ◌≡◌, ◌≢◌, refl, sym, ◌⊎◌, inl, inr, Bool, true, false, String, List, [], Option, none,
  some, any, get_elem?, str_eq, arith, Bool-cases, Option-cases,
}
use mathlib.Core.Path.{subst}
use research_monitor.Sql.{Found, found, absent, read_failed, FirstLaw, Table}
use research_monitor.Http.{
  GoError, ErrorBody, Response, data_response, empty_response, error_response, internal, serve,
}
use research_monitor.Auth.Types.{
  Uuids, LoginRequest, LoginResponse, ok, err, validate_login, validation_failed,
  reason_invalid_credentials,
}
use research_monitor.Auth.Repository.{
  Model, clash, has_email, with_id, to_domain, read_one, find_by_email,
}
use research_monitor.Auth.Hasher.{
  Bcrypt, Comparison, matches, mismatched, unreadable, compared, verify,
}
use research_monitor.Auth.Tokens.{Jwt, JwtConfig, claims, issue}
use research_monitor.Auth.UseCase.{issued, authenticated, looked_up, attempt}
use research_monitor.Auth.Controller.{login_reply, login_handler}
use research_monitor.Auth.Checks.{validate_login-Is400}

-- The one body of a refused login.
abbrev pub refusal : ErrorBody
refusal = record {
  code = 401;
  message = "invalid credentials";
  details = some reason_invalid_credentials;
}

issue-cases :
    (jwt : Jwt) (cfg : JwtConfig) (subject : String) (now : ℕ)
    → (issue jwt cfg subject now ≡ err [])
      ⊎ ((token : List ℕ) × (jwt.sign cfg.secret (claims jwt cfg subject now) ≡ some token)
          × (issue jwt cfg subject now ≡ ok (token, now + cfg.ttl)))
unfolding issue
issue-cases jwt cfg subject now = elim (Bool-cases (str_eq subject "")) [
  | inl blank ↦ inl (rw blank refl)
  | inr given ↦ elim (Option-cases (jwt.sign cfg.secret (claims jwt cfg subject now))) [
    | inl e ↦ inl (rw (given, e) refl)
    | inr (token, e) ↦ inr (token, e, rw (given, e) refl)
  ]
]

module _ {U : Type 0} (uuids : Uuids U) (b : Bcrypt) (jwt : Jwt) (cfg : JwtConfig)
    (is_address : String → Bool) (now : ℕ) where
  -- The row of the email.
  abbrev pub Holds : List Model → String → Model → Type 0
  Holds rows email m = ((i : ℕ) × (get_elem? rows i ≡ some m)) × (has_email email m ≡ true)

  -- The user of the email has the password, and the answer is its token and its data.
  abbrev pub Granted : List Model → LoginRequest → LoginResponse U → Type 0
  Granted rows req body =
      (m : Model) × (id : U) × Holds rows req.email m
      × (uuids.parse m.id ≡ some id)
      × (b.compare m.password_hash req.password ≡ matches)
      × (jwt.sign cfg.secret (claims jwt cfg (uuids.print id) now) ≡ some body.access_token)
      × (body.expires_at ≡ now + cfg.ttl)
      × (body.user ≡ record { id = id; email = m.email; created_at = m.created_at })

  -- No user has the email, or its hash does not match or cannot be read.
  abbrev pub Refused : List Model → LoginRequest → Type 0
  Refused rows req =
      (any (has_email req.email) rows ≡ false)
      ⊎ ((m : Model) × Holds rows req.email m × (b.compare m.password_hash req.password ≢ matches))

  -- The lookup fails, the id of the row is no uuid, or no token can be signed.
  abbrev pub Broken : List Model → Found Model → LoginRequest → Type 0
  Broken rows f req =
      (f ≡ read_failed)
      ⊎ ((m : Model) × Holds rows req.email m
          × ((uuids.parse m.id ≡ none)
              ⊎ ((id : U) × (uuids.parse m.id ≡ some id)
                  × (b.compare m.password_hash req.password ≡ matches)
                  × (issue jwt cfg (uuids.print id) now ≡ err []))))

  module _ (t : Table Model clash) where
    open t use {Db, rows, first, first_lem}

    abbrev pub lookup : LoginRequest → Db → Found Model
    lookup req db = first (has_email req.email) (λ _. 0) db

    abbrev pub Answered : LoginRequest → Db → Response (LoginResponse U) → Type 0
    Answered req db (data_response status body) =
        (status ≡ 200) × Granted (rows db) req body × (validate_login is_address req ≡ none)
    Answered req db (empty_response status) = ⊥
    Answered req db (error_response status body) =
        ((status ≡ 400) × ((e : GoError) × (validate_login is_address req ≡ some e)))
        ⊎ ((validate_login is_address req ≡ none)
            × (((status ≡ 401) × (body ≡ refusal) × Refused (rows db) req)
                ⊎ ((status ≡ 500) × (body ≡ internal) × Broken (rows db) (lookup req db) req)))

    abbrev pub LoginLaw : Option LoginRequest → Db → Response (LoginResponse U) → Type 0
    LoginLaw none db r =
        r
        ≡ error_response 400
            (record { code = 400; message = "invalid json body"; details = some validation_failed })
    LoginLaw (some req) db r = Answered req db r

    module _ (req : LoginRequest) (db : Db) (valid : validate_login is_address req ≡ none) where
      issued_lem :
          (m : Model) (id : U)
          → Holds (rows db) req.email m
          → uuids.parse m.id ≡ some id
          → b.compare m.password_hash req.password ≡ matches
          → Answered req db (
              serve (
                login_reply (
                  issued uuids b jwt cfg
                    (record {
                      id = id;
                      email = m.email;
                      password_hash = m.password_hash;
                      created_at = m.created_at;
                      updated_at = m.updated_at;
                    })
                    (issue jwt cfg (uuids.print id) now))))
      unfolding serve
      issued_lem m id holds p q = elim (issue-cases jwt cfg (uuids.print id) now) [
        | inl e ↦ rw e (inr (valid, inr (refl, refl, inr (m, holds, inr (id, p, q, e)))))
        | inr (token, s, e) ↦ rw e (refl, (m, id, holds, p, q, s, refl, refl), valid)
      ]

      authenticated_lem :
          (m : Model) (id : U)
          → Holds (rows db) req.email m
          → uuids.parse m.id ≡ some id
          → (c : Comparison) → b.compare m.password_hash req.password ≡ c
          → Answered req db (
              serve (
                login_reply (
                  authenticated uuids b jwt cfg now
                    (record {
                      id = id;
                      email = m.email;
                      password_hash = m.password_hash;
                      created_at = m.created_at;
                      updated_at = m.updated_at;
                    })
                    (compared b c))))
      unfolding serve issue verify
      authenticated_lem m id holds p matches q = issued_lem m id holds p q
      authenticated_lem m id holds p mismatched q =
          inr (valid, inl (refl, refl, inr (m, holds, λ k. absurd (ground (arith, q)))))
      authenticated_lem m id holds p unreadable q =
          inr (valid, inl (refl, refl, inr (m, holds, λ k. absurd (ground (arith, q)))))

      parsed_lem :
          (m : Model)
          → Holds (rows db) req.email m
          → (o : Option U) → uuids.parse m.id ≡ o
          → Answered req db
              (serve (login_reply (looked_up uuids b jwt cfg req.password now (with_id uuids m o))))
      unfolding serve issue verify
      parsed_lem m holds none p = inr (valid, inr (refl, refl, inr (m, holds, inl p)))
      parsed_lem m holds (some id) p =
          authenticated_lem m id holds p (b.compare m.password_hash req.password) refl

      looked_up_lem :
          (f : Found Model)
          → lookup req db ≡ f
          → FirstLaw (has_email req.email) (λ _. 0) (rows db) f
          → Answered req db (
              serve (login_reply (looked_up uuids b jwt cfg req.password now (read_one uuids t f))))
      unfolding serve issue verify to_domain
      looked_up_lem (found m) e (hit, at, _) = parsed_lem m (at, hit) (uuids.parse m.id) refl
      looked_up_lem absent e h = inr (valid, inl (refl, refl, inl h))
      looked_up_lem read_failed e h = inr (valid, inr (refl, refl, inl e))

    attempt_lem :
        (req : LoginRequest) (db : Db) (v : Option GoError)
        → validate_login is_address req ≡ v
        → Answered req db (serve (login_reply (attempt uuids t b jwt cfg is_address now req db v)))
    unfolding serve issue verify find_by_email
    attempt_lem req db none valid =
        looked_up_lem req db valid (lookup req db) refl
          (first_lem (has_email req.email) (λ _. 0) db)
    attempt_lem req db (some e) refused =
        let (message, reason, same) = validate_login-Is400 is_address req e refused in
        subst (λ x. Answered req db (serve (login_reply {U = U} (err x)))) (sym same)
          (inl (refl, (e, refused)))

    -- `POST /auth/login` answers 200 only to a valid request whose email has a user with this
    -- password, and then with a token for this user, the end of its life and the user's id, email
    -- and time of creation. A body that cannot be bound and a request that is not valid get 400. An
    -- email without a user, a password that does not match and a hash that cannot be read get one
    -- and the same body, with 401 and the reason `invalid_credentials`. All else is 500: a lookup
    -- that fails, a stored id that is no uuid, and a token that cannot be signed.
    pub login_lem :
        (req : Option LoginRequest) (db : Db)
        → LoginLaw req db (serve (login_handler uuids t b jwt cfg is_address now req db))
    unfolding serve login_handler
    login_lem none db = refl
    login_lem (some req) db = attempt_lem req db (validate_login is_address req) refl
