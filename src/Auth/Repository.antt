-- ===== src/Auth/Repository.antt =====
-- The repository of users (internal/infrastructure/persistence/user) over a table.
use research_monitor.Base.{ℕ, zero, suc, Bool, ◌||◌, String, [], ◌∷◌, Option, none, some, str_eq}
use research_monitor.Sql.{
  Created, inserted, duplicated, create_failed, Found, found, absent, read_failed, Updated, updated,
  update_failed, Table,
}
use research_monitor.Http.{GoError, sentinel, user_not_found, email_exists}
use research_monitor.Auth.Types.{Uuids, User, Result, ok, err}

-- The struct `Model`.
pub record Model : Type 0 where
  pub id : String
  pub email : String
  pub password_hash : String
  pub created_at : ℕ
  pub updated_at : ℕ

abbrev pub has_id : String → Model → Bool
has_id id m = str_eq m.id id

abbrev pub has_email : String → Model → Bool
has_email email m = str_eq m.email email

-- The primary key and the unique index.
abbrev pub clash : Model → Model → Bool
clash m n = has_id m.id n || has_email m.email n

-- The two columns that `UpdatePasswordHash` sets.
unfoldable pub rehashed : String → ℕ → Model → Model
rehashed hash now m = record m { password_hash = hash; updated_at = now }

module _ {U : Type 0} (uuids : Uuids U) where
  open uuids use {print, parse}

  unfoldable pub from_domain : User U → Model
  from_domain u = record {
    id = print u.id;
    email = u.email;
    password_hash = u.password_hash;
    created_at = u.created_at;
    updated_at = u.updated_at;
  }

  -- `ToDomain`, with the id parsed.
  abbrev pub with_id : Model → Option U → Result (User U)
  with_id m none = err []
  with_id m (some id) = ok (record {
    id = id;
    email = m.email;
    password_hash = m.password_hash;
    created_at = m.created_at;
    updated_at = m.updated_at;
  })

  unfoldable pub to_domain : Model → Result (User U)
  to_domain m = with_id m (parse m.id)

module _ {U : Type 0} (uuids : Uuids U) (t : Table Model clash) where
  open uuids use {print}
  open t use {Db, create, first, update}

  -- `none` is the nil error.
  abbrev pub saved : Created × Db → Option GoError × Db
  saved (inserted, db) = (none, db)
  saved (duplicated, db) = (some (sentinel email_exists ∷ []), db)
  saved (create_failed, db) = (some [], db)

  unfoldable pub save : User U → Db → Option GoError × Db
  unfolding from_domain
  save u db = saved (create (from_domain uuids u) db)

  abbrev pub read_one : Found Model → Result (User U)
  unfolding to_domain
  read_one (found m) = to_domain uuids m
  read_one absent = err (sentinel user_not_found ∷ [])
  read_one read_failed = err []

  -- `FindByEmail`; `First` orders by the primary key, and at most one row has the email.
  unfoldable pub find_by_email : String → Db → Result (User U)
  unfolding to_domain
  find_by_email email db = read_one (first (has_email email) (λ _. 0) db)

  unfoldable pub find_by_id : U → Db → Result (User U)
  unfolding to_domain
  find_by_id id db = read_one (first (has_id (print id)) (λ _. 0) db)

  abbrev pub checked : Updated × Db → Option GoError × Db
  checked (update_failed, db) = (some [], db)
  checked (updated zero, db) = (some (sentinel user_not_found ∷ []), db)
  checked (updated (suc n), db) = (none, db)

  unfoldable pub update_password_hash : U → String → ℕ → Db → Option GoError × Db
  unfolding rehashed
  update_password_hash id hash now db = checked (update (has_id (print id)) (rehashed hash now) db)
