-- ===== src/Sends/Access.antt =====
-- api/sends.ts: the public endpoints, and `accessIdToSendUuid` of services/vault.ts.
use Prim.Native.String
use vaultur.Prelude.{
  ℕ, ◌+◌, ◌/◌, String, Bool, false, not, Option, none, some, ◌==◌, nat_instance, string_instance,
  leb, bind_option, map_option, if◌then◌else◌, truthy, or_else,
}
use vaultur.Prelude.Table.{find_first, update_where}
use vaultur.Shared.SendType
use vaultur.Shared.UpdateType
use vaultur.Web.{
  Result, ok, err, M, pure, ◌>>=◌, ◌>>◌, modify, get, err_code, not_found, when, err_if,
}
use vaultur.Db.{Db, Send, SendContent, Blob}
use vaultur.Context.{Context, Claims, issuer, decode_jwt}
use vaultur.Users.{find_user_by_uuid}
use vaultur.Sends.Common.{check_send_password, notify}

-- `accessIdToSendUuid`
unfoldable pub access_id_to_send_uuid : Context → String → Option String
access_id_to_send_uuid c access_id =
    let hex = c.platform.hex_of_base64url access_id in
    let part = λ (from to : ℕ). String.slice hex from to in
    if String.len hex == 32
    then some (
        String.◌++◌ (part 0 8) (
          String.◌++◌ "-" (
            String.◌++◌ (part 8 12) (
              String.◌++◌ "-" (
                String.◌++◌ (part 12 16)
                  (String.◌++◌ "-" (String.◌++◌ (part 16 20) (String.◌++◌ "-" (part 20 32)))))))))
    else none

abbrev pub inaccessible : String
inaccessible = "Send does not exist or is no longer available"

-- The three tests of `checkAccessible` that read an optional field.
abbrev pub is_used_up : Send → Bool
is_used_up send = elim send.max_access_count [ none ↦ false | some n ↦ leb n send.access_count ]

abbrev pub is_expired : ℕ → Option ℕ → Bool
is_expired now none = false
is_expired now (some t) = leb t now

-- `checkAccessible`
unfoldable pub check_accessible : Context → Send → M Db (Unit {0})
check_accessible c send =
    if is_used_up send
    then err_code inaccessible 404
    else if is_expired c.now send.expiration_date
    then err_code inaccessible 404
    else if leb send.deletion_date c.now
    then err_code inaccessible 404
    else if send.disabled
    then err_code inaccessible 404
    else pure tt

-- The password guard of both endpoints; their messages differ in a full stop.
unfoldable pub check_password : Context → Send → Option String → String → M Db (Unit {0})
check_password c send password message =
    if truthy send.password_hash
    then (do
      when (not (truthy password)) (err_code "Password not provided" 401)
      err_if (not (check_send_password c send (or_else password ""))) message)
    else pure tt

abbrev require : Option Send → M Db Send
require none d = err_code inaccessible 404 d
require (some send) d = (d, ok send)

-- One more access, written over the counter that was read.
unfoldable pub count_access : Send → M Db (Unit {0})
count_access send = modify λ d. record d {
  sends =
      update_where (λ s. s.uuid == send.uuid)
        (λ s. record s { access_count = send.access_count + 1 }) d.sends;
}

pub record Access : Type 0 where
  pub id : String
  pub atype : ℕ
  pub name : String
  pub content : SendContent
  pub expiration_date : Option ℕ
  pub creator_identifier : Option String

abbrev creator : Send → Db → Option String
creator send d =
    if or_else send.hide_email false
    then none
    else map_option (λ u. u.email)
        (bind_option send.user_uuid (λ id. if id == "" then none else find_user_by_uuid id d))

-- `sendToJsonAccess`
unfoldable pub send_to_json_access : Send → Db → Access
send_to_json_access send d = record {
  id = send.uuid;
  atype = send.atype;
  name = send.name;
  content = send.content;
  expiration_date = send.expiration_date;
  creator_identifier = creator send d;
}

abbrev notify_owner : Send → M Db (Unit {0})
notify_owner send =
    when (truthy send.user_uuid) (notify UpdateType.sync_send_update (or_else send.user_uuid ""))

-- POST /sends/access/:accessId
unfoldable pub access : Context → String → Option String → M Db Access
access c access_id password = do
  found ← get λ d.
      bind_option (access_id_to_send_uuid c access_id)
        (λ id. find_first (λ s. s.uuid == id) d.sends)
  send ← require found
  check_accessible c send
  check_password c send password "Invalid password"
  when (send.atype == SendType.text) (count_access send)
  notify_owner send
  get (send_to_json_access send)

abbrev pub path : String → String → String
path send_id file_id = String.◌++◌ send_id (String.◌++◌ "/" file_id)

-- `fileKey`
abbrev pub file_key : String → String → String
file_key send_id file_id = String.◌++◌ "sends/" (path send_id file_id)

-- The claims of a download token, which lasts five minutes.
unfoldable pub download_claims : Context → String → String → Claims
download_claims c send_id file_id = record {
  iss = issuer c "send";
  sub = path send_id file_id;
  exp = c.now / 1000 + 300;
  emer_id = none;
  member_id = none;
  org_id = none;
  email = none;
  sstamp = "";
  device = "";
}

-- POST /sends/:sendId/access/file/:fileId: the answer is the token of the download.
unfoldable pub access_file : Context → String → String → Option String → M Db String
access_file c send_id file_id password = do
  found ← get (λ d. find_first (λ s. s.uuid == send_id) d.sends)
  send ← require found
  check_accessible c send
  check_password c send password "Invalid password."
  count_access send
  pure (c.platform.sign (download_claims c send_id file_id))

abbrev or_not_found {ℓ} : {A : Type ℓ} → Option A → Result A
or_not_found none = err 404 "Not found"
or_not_found (some a) = ok a

-- The `try` of the download: the token is for this file.
unfoldable pub is_download_token : Context → String → String → String → Bool
is_download_token c send_id file_id token = elim (decode_jwt c token (issuer c "send")) [
  | none ↦ false
  | some claims ↦ claims.sub == path send_id file_id
]

-- GET /sends/:sendId/:fileId
unfoldable pub download : Context → String → String → String → M Db Blob
download c send_id file_id token =
    if is_download_token c send_id file_id token
    then (λ d. (d, or_not_found (find_first (λ b. b.key == file_key send_id file_id) d.blobs)))
    else not_found "Not found"
