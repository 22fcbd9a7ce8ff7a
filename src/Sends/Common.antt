-- ===== src/Sends/Common.antt =====
-- api/sends.ts: passwords, the payload of a Send, the policy against Sends, and a new Send.
use vaultur.Prelude.{
  ℕ, ◌+◌, ◌*◌, String, Bool, true, false, not, Option, none, some, ◌==◌, nat_instance,
  string_instance, ◌&&◌, ltb, if◌then◌else◌, truthy, or_else, ◌∷◌,
}
use vaultur.Prelude.Table.{inner_join, any, update_where}
use vaultur.Prelude.Int.{int_ltb}
use vaultur.Shared.MembershipStatus
use vaultur.Shared.MembershipType
use vaultur.Shared.OrgPolicyType
use vaultur.Web.{Result, ok, err, M, ◌>>=◌, modify, get, err_code, err_if}
use vaultur.Db.{Db, Send, SendContent, TextData, Effect, Membership, OrgPolicy}
use vaultur.Db.Keys.{has_key}
use vaultur.Context.{Context}
use vaultur.Memberships.{is_at_least}

-- A text that the handler gives to `new Date`: absent or "", not a date, or an instant.
pub data DateText : Type 0 where
  missing malformed : DateText
  instant : ℕ → DateText

abbrev pub iterations : ℕ
iterations = 100000

-- `hashSendPassword`, with the random salt as an argument
pub record SendPassword : Type 0 where
  pub hash : String
  pub salt : String
  pub iter : ℕ

unfoldable pub hash_send_password : Context → String → String → SendPassword
hash_send_password c salt password = record {
  hash = c.platform.pbkdf2 password salt iterations;
  salt = salt;
  iter = iterations;
}

abbrev check_parts : Context → String → Option String → Option String → Option ℕ → Bool
check_parts c password none salt iter = false
check_parts c password (some hash) none iter = false
check_parts c password (some hash) (some salt) none = false
check_parts c password (some hash) (some salt) (some iter) =
    not (hash == "")
    && not (salt == "")
    && not (iter == 0)
    && c.platform.pbkdf2 password salt iter == hash

-- `checkSendPassword`: false where the hash, the salt or the number of rounds is missing.
unfoldable pub check_send_password : Context → Send → String → Bool
check_send_password c send password =
    check_parts c password send.password_hash send.password_salt send.password_iter

-- The payload, as `ci` finds its fields in the body.
pub record SendBody : Type 0 where
  pub atype : Option ℕ
  pub key : Option String
  pub password : Option String
  pub max_access_count : Option ℕ
  pub expiration_date : DateText
  pub deletion_date : DateText
  pub disabled : Bool
  pub hide_email : Option Bool
  pub name : Option String
  pub notes : Option String
  pub text : Option TextData
  pub file : Option String
  pub file_length : Option ℕ

-- `SendData` and `parseSendData`
pub record SendData : Type 0 where
  pub atype : ℕ
  pub key : String
  pub password : Option String
  pub max_access_count : Option ℕ
  pub expiration_date : DateText
  pub deletion_date : DateText
  pub disabled : Bool
  pub hide_email : Option Bool
  pub name : String
  pub notes : Option String
  pub text : Option TextData
  pub file : Option String
  pub file_length : Option ℕ

unfoldable pub parse_send_data : SendBody → SendData
parse_send_data body = record {
  atype = or_else body.atype 0;
  key = or_else body.key "";
  password = body.password;
  max_access_count = body.max_access_count;
  expiration_date = body.expiration_date;
  deletion_date = body.deletion_date;
  disabled = body.disabled;
  hide_email = body.hide_email;
  name = or_else body.name "";
  notes = body.notes;
  text = body.text;
  file = body.file;
  file_length = body.file_length;
}

-- The rows that `enforceDisableSendPolicy` selects, and its test of one.
abbrev disables : String → OrgPolicy × Membership → Bool
disables user (p, m) =
    p.atype == OrgPolicyType.disable_send
    && p.enabled
    && m.user_uuid == user
    && not (int_ltb m.status MembershipStatus.accepted)
    && not (is_at_least m.atype MembershipType.admin)

unfoldable pub disable_send_applies : Context → Db → Bool
disable_send_applies c d =
    any (disables c.user.uuid)
      (inner_join (λ p m. p.org_uuid == m.org_uuid) d.org_policies d.users_organizations)

abbrev pub only_delete : String
only_delete = "Due to an Enterprise Policy, you are only able to delete an existing Send."

-- `enforceDisableSendPolicy`
unfoldable pub enforce_disable_send_policy : Context → M Db (Unit {0})
enforce_disable_send_policy c = do
  applies ← get (disable_send_applies c)
  err_if applies only_delete

-- 31 days in milliseconds
abbrev pub max_lifetime : ℕ
max_lifetime = 31 * 24 * 3600 * 1000

abbrev pub too_far : String
too_far =
    "You cannot have a Send with a deletion date that far into the future. Adjust the Deletion Date to a value less than 31 days from now and try again."

-- The test of a deletion date, which creation and update share.
unfoldable pub check_deletion : Context → DateText → Result ℕ
check_deletion c missing = err 400 too_far
check_deletion c malformed = err 400 too_far
check_deletion c (instant t) = if ltb (c.now + max_lifetime) t then err 400 too_far else ok t

-- `data.expirationDate ? toDb(new Date(…)) : null`: `toISOString` throws on a text that is no date.
unfoldable pub read_expiration : DateText → Result (Option ℕ)
read_expiration missing = ok none
read_expiration malformed = err 500 "Internal server error"
read_expiration (instant t) = ok (some t)

abbrev pub is_missing : DateText → Bool
is_missing missing = true
is_missing _ = false

-- The password of a payload, set where it is given.
unfoldable pub with_password : Context → String → Option String → Send → Send
with_password c salt password send =
    let pw = hash_send_password c salt (or_else password "") in
    if truthy password
    then record send {
      password_hash = some pw.hash;
      password_salt = some pw.salt;
      password_iter = some pw.iter;
    }
    else send

-- `newSendFromData`, with the random uuid and salt as arguments
unfoldable pub new_send_from_data : Context → String → String → SendData → Result Send
new_send_from_data c fresh salt data' =
    if data'.key == ""
    then err 400 "Send data not provided"
    else if is_missing data'.deletion_date
    then err 400 "Send data not provided"
    else elim (check_deletion c data'.deletion_date) [
      | err n t ↦ err n t
      | ok deletion ↦ elim (read_expiration data'.expiration_date) [
        | err n t ↦ err n t
        | ok expiration ↦ ok (
            with_password c salt data'.password (record {
              uuid = fresh;
              user_uuid = some c.user.uuid;
              name = data'.name;
              notes = data'.notes;
              atype = data'.atype;
              content = SendContent.empty;
              akey = data'.key;
              password_hash = none;
              password_salt = none;
              password_iter = none;
              max_access_count = data'.max_access_count;
              access_count = 0;
              creation_date = c.now;
              revision_date = c.now;
              expiration_date = expiration;
              deletion_date = deletion;
              disabled = data'.disabled;
              hide_email = data'.hide_email;
            }))
      ]
    ]

-- `db.insert(sends).values(send)`
unfoldable pub insert_send : Send → M Db (Unit {0})
insert_send send d =
    if has_key (λ s. s.uuid) send.uuid d.sends
    then err_code "Internal server error" 500 d
    else (record d { sends = send ∷ d.sends }, ok tt)

-- `db.update(sends).set({ ...send }).where(eq(sends.uuid, send.uuid))`
unfoldable pub store_send : Send → M Db (Unit {0})
store_send send =
    modify λ d. record d { sends = update_where (λ s. s.uuid == send.uuid) (λ _. send) d.sends }

-- `sendNotifier(c).sendUpdate(ut, send, [user], …)`
abbrev pub notify : ℕ → String → M Db (Unit {0})
notify ut user = modify λ d. record d { outbox = Effect.notice ut user ∷ d.outbox }
