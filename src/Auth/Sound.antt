-- ===== src/Auth/Sound.antt =====
-- The table of users under registrations and changes of passwords.
use research_monitor.Base.{
  ℕ, zero, suc, ◌≡◌, refl, inl, inr, Bool, true, false, String, List, [], ◌∷◌, Option, none, some,
  All, eq_iff, Bool-cases, arith, if◌then◌else◌, All-append_last,
}
use research_monitor.Sql.{
  Created, inserted, duplicated, create_failed, Updated, updated, update_failed, update_where,
  CreateLaw, UpdateLaw, Table,
}
use research_monitor.Sql.Rows.{NoClash, NoClash-append, NoClash-update}
use research_monitor.Http.{GoError, sentinel, password_unchanged}
use research_monitor.Auth.Types.{
  Uuids, User, ChangePasswordRequest, Result, ok, err, validate_change,
}
use research_monitor.Auth.Repository.{
  Model, clash, has_id, rehashed, from_domain, saved, save, checked, update_password_hash,
  find_by_id,
}
use research_monitor.Auth.Hasher.{Bcrypt, hash, verify}
use research_monitor.Auth.UseCase.{
  rehash, confirmed, resolved, change_valid, change_password, same_bytes,
}

clash_symm : (m n : Model) → clash m n ≡ false → clash n m ≡ false
clash_symm m n h =
    ground
      (arith, eq_iff m.id n.id, eq_iff n.id m.id, eq_iff m.email n.email, eq_iff n.email m.email)

All-update :
    (P : Model → Type 0) (p : Model → Bool) (f : Model → Model)
    → ((m : Model) → P m → P (f m))
    → (rows : List Model) → All P rows
    → All P (update_where p f rows)
All-update P p f keep [] h = tt
All-update P p f keep (m ∷ rows) (h, hs) = (
  elim (Bool-cases (p m)) [ inl hit ↦ rw hit (keep m h) | inr miss ↦ rw miss h ],
  All-update P p f keep rows hs,
)

-- A rotation leaves the keys alone.
pub rehashed-keeps :
    (p : Model → Bool) (hash : String) (now : ℕ) (m n : Model)
    → clash (if p m then rehashed hash now m else m) (if p n then rehashed hash now n else n)
      ≡ clash m n
unfolding rehashed
rehashed-keeps p hash now m n = ground arith

-- `Save` of a user, or a call of `ChangePassword`.
pub data Op (U : Type 0) : Type 0 where
  register : User U → Op U
  change : ℕ → ℕ → ℕ → U → ChangePasswordRequest → Op U

module _ {U : Type 0} (uuids : Uuids U) where
  open uuids use {print}

  abbrev pub IsPrinted : Model → Type 0
  IsPrinted m = (u : U) × (m.id ≡ print u)

  pub record IsSound (rows : List Model) : Type 0 where
    -- Every id is the text of a uuid.
    pub printed : All IsPrinted rows
    -- No two rows share an id or an email.
    pub distinct : NoClash clash rows

  module _ (t : Table Model clash) where
    open t use {Db, rows, create, create_lem, update, update_lem}

    save-IsSound : (u : User U) (db : Db) → IsSound (rows db) → IsSound (rows (save uuids t u db).1)
    unfolding save
    save-IsSound u db h = go (create (from_domain uuids u) db) (create_lem (from_domain uuids u) db)
      where
        go :
            (out : Created × Db)
            → CreateLaw clash (from_domain uuids u) (rows db) out.0 (rows out.1)
            → IsSound (rows (saved uuids t out).1)
        go (inserted, after) (same, free) = rw same (record {
          printed =
              All-append_last IsPrinted (from_domain uuids u) (rows db) h.printed (u.id, refl);
          distinct = NoClash-append clash clash_symm _ (rows db) free h.distinct;
        })
        go (duplicated, after) (same, _) = rw same h
        go (create_failed, after) same = rw same h

    update_password_hash-IsSound :
        (id : U) (hash : String) (now : ℕ) (db : Db)
        → IsSound (rows db)
        → IsSound (rows (update_password_hash uuids t id hash now db).1)
    unfolding update_password_hash
    update_password_hash-IsSound id hash now db h =
        go (update (has_id (print id)) (rehashed hash now) db)
          (update_lem (has_id (print id)) (rehashed hash now) db)
      where
        changed : IsSound (update_where (has_id (print id)) (rehashed hash now) (rows db))
        changed = record {
          printed =
              All-update IsPrinted (has_id (print id)) (rehashed hash now) (λ m k. k) (rows db)
                h.printed;
          distinct =
              NoClash-update clash (has_id (print id)) (rehashed hash now)
                (rehashed-keeps (has_id (print id)) hash now) (rows db) h.distinct;
        }

        go :
            (out : Updated × Db)
            → UpdateLaw (has_id (print id)) (rehashed hash now) (rows db) out.0 (rows out.1)
            → IsSound (rows (checked uuids t out).1)
        go (update_failed, after) same = rw same h
        go (updated zero, after) (same, _) = rw same changed
        go (updated (suc n), after) (same, _) = rw same changed

    module _ (b : Bcrypt) (cost salt stamp : ℕ) (req : ChangePasswordRequest) where
      rehash-IsSound :
          (u : User U) (out : Result String) (db : Db)
          → IsSound (rows db)
          → IsSound (rows (rehash uuids t b stamp db u out).1)
      unfolding update_password_hash
      rehash-IsSound u (err e) db h = h
      rehash-IsSound u (ok x) db h = update_password_hash-IsSound u.id x stamp db h

      confirmed-IsSound :
          (u : User U) (out : Option GoError) (db : Db)
          → IsSound (rows db)
          → IsSound (rows (confirmed uuids t b cost salt stamp req db u out).1)
      unfolding update_password_hash hash
      confirmed-IsSound u (some e) db h = h
      confirmed-IsSound u none db h =
          elim (same_bytes req.new_password req.current_password)
            as (λ c. IsSound (
              rows
                (if c
                  then (some (sentinel password_unchanged ∷ []), db)
                  else rehash uuids t b stamp db u (hash b cost salt req.new_password)).1)) [
                    | true ↦ h
                    | false ↦ rehash-IsSound u (hash b cost salt req.new_password) db h
                  ]

      resolved-IsSound :
          (out : Result (User U)) (db : Db)
          → IsSound (rows db)
          → IsSound (rows (resolved uuids t b cost salt stamp req db out).1)
      unfolding update_password_hash hash verify
      resolved-IsSound (err e) db h = h
      resolved-IsSound (ok u) db h =
          confirmed-IsSound u (verify b req.current_password u.password_hash) db h

      change_valid-IsSound :
          (id : U) (v : Option GoError) (db : Db)
          → IsSound (rows db)
          → IsSound (rows (change_valid uuids t b cost salt stamp id req db v).1)
      unfolding update_password_hash hash verify find_by_id
      change_valid-IsSound id (some e) db h = h
      change_valid-IsSound id none db h = resolved-IsSound (find_by_id uuids t id db) db h

    -- Any sequence of registrations and changes of passwords, whatever each answers.
    module _ (b : Bcrypt) where
      pub apply : Op U → Db → Db
      unfolding save change_password
      apply (register u) db = (save uuids t u db).1
      apply (change cost salt stamp id req) db =
          (change_password uuids t b cost salt stamp id req db).1

      pub apply_all : List (Op U) → Db → Db
      apply_all [] db = db
      apply_all (op ∷ ops) db = apply_all ops (apply op db)

      apply-IsSound : (op : Op U) (db : Db) → IsSound (rows db) → IsSound (rows (apply op db))
      unfolding apply
      apply-IsSound (register u) db h = save-IsSound u db h
      apply-IsSound (change cost salt stamp id req) db h =
          change_valid-IsSound b cost salt stamp req id (validate_change req) db h

      -- Whatever registrations and changes of passwords follow on a table in order, and whatever they
      -- answer: no two users share an id or an email, and every id in the table is the text of a uuid.
      pub users-IsSound :
          (ops : List (Op U)) (db : Db) → IsSound (rows db) → IsSound (rows (apply_all ops db))
      unfolding apply_all
      users-IsSound [] db h = h
      users-IsSound (op ∷ ops) db h = users-IsSound ops (apply op db) (apply-IsSound op db h)
