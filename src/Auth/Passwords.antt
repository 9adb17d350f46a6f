-- ===== src/Auth/Passwords.antt =====
-- What a change of the password does, and what it makes of later logins.
use research_monitor.Base.{
  ℕ, zero, suc, ◌≡◌, ◌≢◌, refl, sym, ap, ◌∙◌, ◌⊎◌, inl, inr, true, false, String, List, Option,
  none, some, any, get_elem?, eq_iff, arith, Bool-cases,
}
use mathlib.Core.Path.{subst}
use mathlib.Core.Option.{some-injective}
use research_monitor.Sql.{
  Found, found, absent, read_failed, FirstLaw, Updated, updated, update_failed, update_where,
  UpdateLaw, Table,
}
use research_monitor.Text.{is_empty}
use research_monitor.Http.{
  GoError, ErrorBody, Response, data_response, empty_response, error_response, internal, serve,
}
use research_monitor.Auth.Types.{
  Uuids, User, ChangePasswordRequest, validate_change, reason_current_password_incorrect,
  reason_password_unchanged,
}
use research_monitor.Auth.Repository.{
  Model, clash, has_id, rehashed, with_id, to_domain, read_one, find_by_id, checked,
  update_password_hash,
}
use research_monitor.Auth.Hasher.{
  Bcrypt, Comparison, matches, mismatched, unreadable, compared, verify, hash,
}
use research_monitor.Auth.UseCase.{same_bytes, rehash, confirmed, resolved, change_valid}
use research_monitor.Auth.Controller.{user_id, change_reply, change_password_handler}
use research_monitor.Auth.Checks.{count-at, hash-cases, validate_change-Is400, bad_request}

-- The row of a user whose password has been changed: all but its hash and its time of update stays.
abbrev pub rotated_row : String → ℕ → Model → Model
rotated_row hash now m = record {
  id = m.id;
  email = m.email;
  password_hash = hash;
  created_at = m.created_at;
  updated_at = now;
}

module _ {U : Type 0} (uuids : Uuids U) (b : Bcrypt) (cost salt stamp : ℕ) (id : U)
    (req : ChangePasswordRequest) where
  -- The row of the user.
  abbrev pub Holds : List Model → Model → Type 0
  Holds rows m = ((i : ℕ) × (get_elem? rows i ≡ some m)) × (has_id (uuids.print id) m ≡ true)

  abbrev pub Rotated : List Model → List Model → Type 0
  Rotated before after =
      (m : Model) × (h : String) × Holds before m
      × (b.compare m.password_hash req.current_password ≡ matches)
      × (same_bytes req.new_password req.current_password ≡ false)
      × (b.generate cost salt req.new_password ≡ some h)
      × (after ≡ update_where (has_id (uuids.print id)) (rotated_row h stamp) before)

  -- Why a valid request is refused with 400.
  abbrev pub Declined : List Model → ErrorBody → Type 0
  Declined before body =
      (m : Model) × Holds before m
      × (((body ≡ bad_request "current password incorrect" reason_current_password_incorrect)
            × (b.compare m.password_hash req.current_password ≢ matches))
          ⊎ ((body ≡ bad_request "new password equals current password" reason_password_unchanged)
              × (b.compare m.password_hash req.current_password ≡ matches)
              × (same_bytes req.new_password req.current_password ≡ true)))

  -- The hasher makes no hash of the new password, or the statement that stores it fails.
  abbrev pub Blocked : (String → Updated) → Type 0
  Blocked stored =
      (b.generate cost salt req.new_password ≡ none)
      ⊎ ((h : String) × (b.generate cost salt req.new_password ≡ some h)
          × (stored h ≡ update_failed))

  -- The lookup fails, there is no user, its id is no uuid, or the confirmed request meets a failure
  -- of the hasher or of the table.
  abbrev pub Stuck : List Model → Found Model → (String → Updated) → Type 0
  Stuck before f stored =
      (f ≡ read_failed)
      ⊎ (any (has_id (uuids.print id)) before ≡ false)
      ⊎ ((m : Model) × Holds before m
          × ((uuids.parse m.id ≡ none)
              ⊎ ((b.compare m.password_hash req.current_password ≡ matches)
                  × (same_bytes req.new_password req.current_password ≡ false)
                  × Blocked stored)))

  abbrev pub ChangeLaw :
      List Model → Found Model → (String → Updated) → Response (Unit {0}) → List Model → Type 0
  ChangeLaw before f stored (data_response status body) after = ⊥
  ChangeLaw before f stored (empty_response status) after =
      (status ≡ 204) × (validate_change req ≡ none) × Rotated before after
  ChangeLaw before f stored (error_response status body) after =
      (after ≡ before)
      × (((status ≡ 400)
            × (((e : GoError) × (validate_change req ≡ some e))
                ⊎ ((validate_change req ≡ none) × Declined before body)))
          ⊎ ((status ≡ 500)
              × (body ≡ internal)
              × (validate_change req ≡ none)
              × Stuck before f stored))

  module _ (t : Table Model clash) (db : Table.Db t) where
    open t use {Db, rows, first, first_lem, update, update_lem}

    abbrev pub lookup : Found Model
    lookup = first (has_id (uuids.print id)) (λ _. 0) db

    -- What the statement that stores a hash answers.
    abbrev pub stored : String → Updated
    stored h = (update (has_id (uuids.print id)) (rotated_row h stamp) db).0

    abbrev pub Law : Option GoError × Db → Type 0
    Law out = ChangeLaw (rows db) lookup stored (serve (change_reply out.0)) (rows out.1)

    abbrev user_of : U → Model → User U
    user_of id' m = record {
      id = id';
      email = m.email;
      password_hash = m.password_hash;
      created_at = m.created_at;
      updated_at = m.updated_at;
    }

    module _ (valid : validate_change req ≡ none) (m : Model) (holds : Holds (rows db) m) where
      module _ (matched : b.compare m.password_hash req.current_password ≡ matches)
          (fresh : same_bytes req.new_password req.current_password ≡ false) where
        checked_lem :
            (h : String)
            → b.generate cost salt req.new_password ≡ some h
            → (u : Updated × Db)
            → UpdateLaw (has_id (uuids.print id)) (rotated_row h stamp) (rows db) u.0 (rows u.1)
            → stored h ≡ u.0
            → Law (checked uuids t u)
        unfolding serve
        checked_lem h made (update_failed, after) same failed = (
          same,
          inr (
            refl,
            refl,
            valid,
            inr (inr (m, holds, inr (matched, fresh, inr (h, made, failed)))),
          ),
        )
        checked_lem h made (updated zero, after) (same, n) ran =
            let ((i, at), hit) = holds in
            let some_row = count-at (has_id (uuids.print id)) (rows db) i m at hit in
            absurd (omega (arith, n))
        checked_lem h made (updated (suc n), after) (same, _) ran =
            (refl, valid, (m, h, holds, matched, fresh, made, same))

        password_given : is_empty req.new_password ≡ false
        unfolding validate_change
        password_given = ground (arith, valid)

        unhashed :
            (is_empty req.new_password ≡ true) ⊎ (b.generate cost salt req.new_password ≡ none)
            → Blocked stored
        unhashed (inl blank) = absurd (cc (password_given, blank))
        unhashed (inr none_made) = inl none_made

        rehash_lem :
            (id' : U)
            → id' ≡ id
            → Law (rehash uuids t b stamp db (user_of id' m) (hash b cost salt req.new_password))
        unfolding serve update_password_hash rehashed
        rehash_lem id' e =
            subst
              (λ x.
                Law (rehash uuids t b stamp db (user_of x m) (hash b cost salt req.new_password)))
              (sym e)
              (elim (hash-cases b cost salt req.new_password) [
                | inl (none_made, cause) ↦ rw none_made (
                  refl,
                  inr (
                    refl,
                    refl,
                    valid,
                    inr (inr (m, holds, inr (matched, fresh, unhashed cause))),
                  ),
                )
                | inr (h, made, got) ↦ rw got (
                    checked_lem h made (update (has_id (uuids.print id)) (rotated_row h stamp) db)
                      (update_lem (has_id (uuids.print id)) (rotated_row h stamp) db) refl)
              ])

      confirmed_lem :
          (id' : U)
          → id' ≡ id
          → (c : Comparison) → b.compare m.password_hash req.current_password ≡ c
          → Law (confirmed uuids t b cost salt stamp req db (user_of id' m) (compared b c))
      unfolding serve hash update_password_hash
      confirmed_lem id' e mismatched q =
          (refl, inl (refl, inr (valid, (m, holds, inl (refl, λ k. absurd (ground (arith, q)))))))
      confirmed_lem id' e unreadable q =
          (refl, inl (refl, inr (valid, (m, holds, inl (refl, λ k. absurd (ground (arith, q)))))))
      confirmed_lem id' e matches q =
          elim (Bool-cases (same_bytes req.new_password req.current_password)) [
            | inl equal ↦ rw equal (refl, inl (refl, inr (valid, (m, holds, inr (refl, q, equal)))))
            | inr fresh ↦ rw fresh (rehash_lem q fresh id' e)
          ]

    parsed_lem :
        validate_change req ≡ none
        → (m : Model) → Holds (rows db) m
        → (o : Option U) → uuids.parse m.id ≡ o
        → Law (resolved uuids t b cost salt stamp req db (with_id uuids m o))
    unfolding serve hash verify update_password_hash
    parsed_lem valid m holds none p = (refl, inr (refl, refl, valid, inr (inr (m, holds, inl p))))
    parsed_lem valid m holds (some id') p =
        let same_text : m.id ≡ uuids.print id = (eq_iff m.id (uuids.print id)).0 holds.1 in
        let same : id' ≡ id =
          some-injective _ _ (sym p ∙ ap uuids.parse same_text ∙ uuids.parse-print id) in
        confirmed_lem valid m holds id' same (b.compare m.password_hash req.current_password) refl

    found_lem :
        validate_change req ≡ none
        → (f : Found Model) → lookup ≡ f
        → FirstLaw (has_id (uuids.print id)) (λ _. 0) (rows db) f
        → Law (resolved uuids t b cost salt stamp req db (read_one uuids t f))
    unfolding serve hash verify update_password_hash to_domain
    found_lem valid (found m) e (hit, at, _) = parsed_lem valid m (at, hit) (uuids.parse m.id) refl
    found_lem valid absent e h = (refl, inr (refl, refl, valid, inr (inl h)))
    found_lem valid read_failed e h = (refl, inr (refl, refl, valid, inl e))

    change_valid_lem :
        (v : Option GoError)
        → validate_change req ≡ v
        → Law (change_valid uuids t b cost salt stamp id req db v)
    unfolding serve hash verify update_password_hash find_by_id
    change_valid_lem none valid =
        found_lem valid lookup refl (first_lem (has_id (uuids.print id)) (λ _. 0) db)
    change_valid_lem (some e) refused =
        let (message, reason, same) = validate_change-Is400 req e refused in
        subst (λ x. Law (some x, db)) (sym same) (refl, inl (refl, inl (e, refused)))

    -- `POST /auth/change-password` of a known user answers 204 only to a valid request whose current
    -- password matches and whose new one differs, and then exactly the hash and the time of update of
    -- this user are new, the hash made of the new password. Any other answer is an error, and no row
    -- has changed: 400 where the request is not valid, the current password does not match (its hash
    -- may be unreadable) or the new one is the same; 500 where the lookup fails, there is no such
    -- user, its id is no uuid, or the passwords are confirmed and the hasher makes no hash of the new
    -- one or the statement that stores that hash fails.
    pub change_lem :
        ChangeLaw
          (rows db)
          lookup
          stored
          (serve (change_password_handler uuids t b cost salt stamp (some req) (user_id id) db).0)
          (rows (change_password_handler uuids t b cost salt stamp (some req) (user_id id) db).1)
    unfolding serve change_password_handler
    change_lem = change_valid_lem (validate_change req) refl
