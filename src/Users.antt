-- ===== src/Users.antt =====
-- services/users.ts and crypto.ts: the queries on the table of users and the fields of a password.
use vaultur.Prelude.{ℕ, String, Option, ◌==◌, string_instance}
use vaultur.Prelude.Table.{find_first, update_where}
use vaultur.Db.{User, Db}
use vaultur.Context.{Context}

-- `findFirst` on the table of users by uuid
unfoldable pub find_user_by_uuid : String → Db → Option User
find_user_by_uuid id d = find_first (λ u. u.uuid == id) d.users

-- `findUserByEmail`
unfoldable pub find_user_by_email : Context → String → Db → Option User
find_user_by_email c email d = find_first (λ u. u.email == c.platform.trim_lower email) d.users

pub record PasswordFields : Type 0 where
  pub password_hash : String
  pub salt : String
  pub password_iterations : ℕ

-- `passwordFields`, with the random salt as an argument
unfoldable pub password_fields : Context → String → String → PasswordFields
password_fields c salt client_hash = record {
  password_hash = c.platform.pbkdf2 client_hash salt c.config.password_iterations;
  salt = salt;
  password_iterations = c.config.password_iterations;
}

-- `touchUser`
unfoldable pub touch_user : Context → String → Db → Db
touch_user c id d = record d {
  users = update_where (λ u. u.uuid == id) (λ u. record u { updated_at = c.now }) d.users;
}
