-- ===== src/Auth/Rotation.antt =====
-- A login after a change of the password.
use research_monitor.Base.{
  ℕ, ◌≡◌, sym, ap, ◌∙◌, inl, inr, Bool, true, String, none, some, get_elem?, eq_iff, arith,
}
use mathlib.Core.Path.{subst}
use research_monitor.Sql.{update_where, Table}
use research_monitor.Sql.Rows.{update_where-at, NoClash, NoClash-update, any-at, same_row}
use research_monitor.Http.{Response, data_response, empty_response, error_response, internal, serve}
use research_monitor.Auth.Types.{
  Uuids, LoginRequest, LoginResponse, ChangePasswordRequest, validate_login,
}
use research_monitor.Auth.Repository.{Model, clash, has_id, has_email, rehashed}
use research_monitor.Auth.Hasher.{Bcrypt, matches}
use research_monitor.Auth.Tokens.{Jwt, JwtConfig}
use research_monitor.Auth.Controller.{user_id, login_handler, change_password_handler}
use research_monitor.Auth.Logins.{LoginLaw, login_lem}
use research_monitor.Auth.Passwords.{ChangeLaw, lookup, stored, change_lem}
use research_monitor.Auth.Sound.{IsSound, rehashed-keeps}

clash-email : (m n : Model) → has_email m.email n ≡ true → clash m n ≡ true
clash-email m n h = ground arith

module _ {U : Type 0} (uuids : Uuids U) (b : Bcrypt) (jwt : Jwt) (cfg : JwtConfig)
    (is_address : String → Bool) (t : Table Model clash) where
  open t use {Db, rows}

  -- The answer to a login that the password cannot be the cause to refuse.
  abbrev pub Welcome : String → Response (LoginResponse U) → Type 0
  Welcome email (data_response status body) = (status ≡ 200) × (body.user.email ≡ email)
  Welcome email (empty_response status) = ⊥
  Welcome email (error_response status body) = (status ≡ 500) × (body ≡ internal)

  module _ (cost salt stamp : ℕ) (id : U) (change : ChangePasswordRequest) (before : Db) (now : ℕ)
      (req : LoginRequest) where
    abbrev pub changed : Response (Unit {0})
    changed =
        serve
          (change_password_handler uuids t b cost salt stamp (some change) (user_id id) before).0

    abbrev pub after : Db
    after = (change_password_handler uuids t b cost salt stamp (some change) (user_id id) before).1

    module _ (h : String) (made : b.generate cost salt change.new_password ≡ some h)
        (same : rows after
          ≡ update_where (has_id (uuids.print id)) (rehashed h stamp) (rows before))
        (sound : IsSound uuids (rows before)) (i : ℕ) (m : Model)
        (at : get_elem? (rows before) i ≡ some m) (own : has_id (uuids.print id) m ≡ true)
        (email : req.email ≡ m.email) (password : req.password ≡ change.new_password)
        (valid : validate_login is_address req ≡ none) where
      rotated_at : get_elem? (rows after) i ≡ some (rehashed h stamp m)
      rotated_at =
          ap (λ rs. get_elem? rs i) same
          ∙ update_where-at (has_id (uuids.print id)) (rehashed h stamp) (rows before) i m at own

      still_distinct : NoClash clash (rows after)
      still_distinct = subst (NoClash clash) (sym same) (
          NoClash-update clash (has_id (uuids.print id)) (rehashed h stamp)
            (rehashed-keeps (has_id (uuids.print id)) h stamp) (rows before) sound.distinct)

      same_email : has_email req.email (rehashed h stamp m) ≡ true
      unfolding rehashed
      same_email = (eq_iff m.email req.email).1 (sym email)

      -- The row that a login finds is the rotated one.
      found_row :
          (j : ℕ) (n : Model)
          → get_elem? (rows after) j ≡ some n
          → has_email req.email n ≡ true
          → rehashed h stamp m ≡ n
      found_row j n at' hit =
          let mine = (eq_iff (rehashed h stamp m).email req.email).0 same_email in
          let other = (eq_iff n.email req.email).0 hit in
          same_row clash (rows after) i j (rehashed h stamp m) n still_distinct rotated_at at'
            (clash-email (rehashed h stamp m) n ((eq_iff _ _).1 (other ∙ sym mine)))
            (clash-email n (rehashed h stamp m) ((eq_iff _ _).1 (mine ∙ sym other)))

      matches_new : b.compare (rehashed h stamp m).password_hash req.password ≡ matches
      unfolding rehashed
      matches_new =
          ap (b.compare h) password ∙ b.compare-generate cost salt change.new_password h made

      welcome_lem :
          (r : Response (LoginResponse U))
          → LoginLaw uuids b jwt cfg is_address now t (some req) after r
          → Welcome m.email r
      welcome_lem (data_response status body) (good, granted, _) =
          let (n, _, (_, hit), _, _, _, _, shown) = granted in
          (good, ap (λ u. u.email) shown ∙ (eq_iff n.email req.email).0 hit ∙ email)
      welcome_lem (empty_response status) law = law
      welcome_lem (error_response status body) (inl (_, (e, refused))) =
          absurd (ground (arith, valid, refused))
      welcome_lem (error_response status body) (inr (_, inl (_, _, inl nobody))) = absurd (
          any-at (has_email req.email) (rows after) i (rehashed h stamp m) nobody rotated_at
            same_email)
      welcome_lem (error_response status body)
            (inr (_, inl (_, _, inr (n, ((j, at'), hit), bad)))) =
          absurd (
            bad (
              subst (λ x. b.compare x.password_hash req.password ≡ matches) (found_row j n at' hit)
                matches_new))
      welcome_lem (error_response status body) (inr (_, inr (failed, shown, _))) = (failed, shown)

    -- After a change of the password that answered 204 on a table in order, a valid login with the
    -- email of this user and the new password is not refused: it answers 200 and shows the email, or
    -- 500.
    pub change_then_login :
        (i : ℕ) (m : Model)
        → IsSound uuids (rows before)
        → get_elem? (rows before) i ≡ some m
        → has_id (uuids.print id) m ≡ true
        → changed ≡ empty_response 204
        → req.email ≡ m.email
        → req.password ≡ change.new_password
        → validate_login is_address req ≡ none
        → Welcome m.email (serve (login_handler uuids t b jwt cfg is_address now (some req) after))
    unfolding rehashed
    change_then_login i m sound at own accepted email password valid =
        let law =
          subst
            (λ r.
              ChangeLaw uuids b cost salt stamp id change (rows before)
                (lookup uuids b cost salt stamp id change t before)
                (stored uuids b cost salt stamp id change t before) r (rows after))
            accepted (change_lem uuids b cost salt stamp id change t before) in
        let (_, _, (_, h, _, _, _, made, same)) = law in
        welcome_lem h made same sound i m at own email password valid
          (serve (login_handler uuids t b jwt cfg is_address now (some req) after))
          (login_lem uuids b jwt cfg is_address now t (some req) after)
