-- ===== src/Sends/Manage.antt =====
-- api/sends.ts: the endpoints of the owner.
use vaultur.Prelude.{
  ℕ, ◌+◌, String, Bool, false, not, Option, none, some, ◌==◌, nat_instance, string_instance, ◌&&◌,
  ◌||◌, ltb, holds, if◌then◌else◌, or_else, is_some, List, ◌∷◌,
}
use vaultur.Prelude.Table.{find_first, find_many, delete_where}
use vaultur.Shared.SendType
use vaultur.Shared.UpdateType
use vaultur.Web.{
  ok, M, pure, ◌>>=◌, ◌>>◌, modify, get, err_code, not_found, when, err_if, from_result,
}
use vaultur.Db.{Db, Send, SendContent, TextData}
use vaultur.Context.{Context}
use vaultur.Users.{touch_user}
use vaultur.Sends.Common.{
  SendBody, SendData, parse_send_data, enforce_disable_send_policy, check_deletion, read_expiration,
  with_password, new_send_from_data, insert_send, store_send, notify,
}
use vaultur.Sends.Access.{file_key}

-- GET /sends
unfoldable pub list : Context → M Db (List Send)
list c = get λ d. find_many (λ s. holds s.user_uuid c.user.uuid) d.sends

abbrev pub is_own : String → String → Send → Bool
is_own id user s = s.uuid == id && holds s.user_uuid user

abbrev require : Option Send → M Db Send
require none d = not_found "Send not found" d
require (some send) d = (d, ok send)

-- `loadOwnSend`
unfoldable pub load_own_send : Context → String → M Db Send
load_own_send c id d = require (find_first (is_own id c.user.uuid) d.sends) d

-- GET /sends/:id
unfoldable pub show : Context → String → M Db Send
show c id = load_own_send c id

abbrev touch : Context → M Db (Unit {0})
touch c = modify (touch_user c c.user.uuid)

-- The guards that every creation begins with.
unfoldable pub ensure_allowed : Context → M Db (Unit {0})
ensure_allowed c = do
  err_if (not c.config.sends_allowed) "Sends are disabled on this server"
  enforce_disable_send_policy c

-- Stands for a payload's missing text, which the guards refuse before it is stored.
abbrev no_text : TextData
no_text = record { shown = ""; id = none; size = 0 }

-- POST /sends
unfoldable pub create_text : Context → String → String → SendBody → M Db Send
create_text c fresh salt body = do
  ensure_allowed c
  let parsed = parse_send_data body
  err_if (parsed.atype == SendType.file) "File sends should use /api/sends/file"
  err_if (not (is_some parsed.text)) "Send data not provided"
  made ← from_result (new_send_from_data c fresh salt parsed)
  let send = record made { content = SendContent.text (or_else parsed.text no_text) }
  insert_send send
  touch c
  notify UpdateType.sync_send_create c.user.uuid
  pure send

abbrev too_large : Context → ℕ → Bool
too_large c size = ltb c.storage_max_bytes size

-- POST /sends/file/v2, with the random id of the file
unfoldable pub create_file : Context → String → String → String → SendBody → M Db Send
create_file c fresh salt file_id body = do
  ensure_allowed c
  let parsed = parse_send_data body
  err_if (not (parsed.atype == SendType.file)) "Send content is not a file"
  err_if (not (is_some parsed.file)) "Send data not provided"
  let size = or_else parsed.file_length 0
  err_if (size == 0) "Invalid fileLength"
  err_if (too_large c size) "Send storage limit exceeded"
  made ← from_result (new_send_from_data c fresh salt parsed)
  let send = record made { content = SendContent.file file_id (or_else parsed.file "") size }
  insert_send send
  pure send

abbrev has_file_id : SendContent → String → Bool
has_file_id (SendContent.file id _ _) file_id = id == file_id
has_file_id (SendContent.text body) file_id = holds body.id file_id
has_file_id SendContent.empty file_id = false

abbrev pub expected_size : SendContent → ℕ
expected_size (SendContent.file _ _ size) = size
expected_size (SendContent.text body) = body.size
expected_size SendContent.empty = 0

-- `Math.abs(expected - size) > 1`
abbrev pub differs : ℕ → ℕ → Bool
differs expected size = ltb (size + 1) expected || ltb (expected + 1) size

-- A write to the blob store, which replaces what stood under the key.
abbrev put_blob : String → ℕ → M Db (Unit {0})
put_blob key size = modify λ d. record d {
  blobs = record { key = key; size = size } ∷ delete_where (λ b. b.key == key) d.blobs;
}

-- POST /sends/:id/file/:fileId; `none` is a form without a file.
unfoldable pub upload : Context → String → String → Option ℕ → M Db (Unit {0})
upload c id file_id file = do
  send ← load_own_send c id
  err_if (not (has_file_id send.content file_id)) "Send file id mismatch"
  err_if (not (is_some file)) "No data to upload"
  let size = or_else file 0
  err_if (differs (expected_size send.content) size) "Send file size mismatch"
  err_if (too_large c size) "Send storage limit exceeded"
  put_blob (file_key send.uuid file_id) size
  touch c
  notify UpdateType.sync_send_create c.user.uuid

-- POST /sends/file: the older upload in one request; the file has a name and a size.
unfoldable pub create_file_legacy :
    Context → String → String → String → Option SendBody → Option (String × ℕ) → M Db Send
create_file_legacy c fresh salt file_id none file = do
  ensure_allowed c
  err_code "Invalid multipart data" 400
create_file_legacy c fresh salt file_id (some body) none = do
  ensure_allowed c
  err_code "Invalid multipart data" 400
create_file_legacy c fresh salt file_id (some body) (some (name, size)) = do
  ensure_allowed c
  err_if (too_large c size) "Send storage limit exceeded"
  made ← from_result (new_send_from_data c fresh salt (parse_send_data body))
  let send = record made { content = SendContent.file file_id name size }
  insert_send send
  put_blob (file_key send.uuid file_id) size
  touch c
  notify UpdateType.sync_send_create c.user.uuid
  pure send

-- The row that `PUT /sends/:id` stores.
unfoldable pub updated_send : Context → String → SendData → Send → ℕ → Option ℕ → Send
updated_send c salt parsed send deletion expiration =
    with_password c salt parsed.password (record send {
      content =
          (if send.atype == SendType.text
            then SendContent.text (or_else parsed.text no_text)
            else send.content);
      name = parsed.name;
      akey = (if parsed.key == "" then send.akey else parsed.key);
      deletion_date = deletion;
      notes = parsed.notes;
      max_access_count = parsed.max_access_count;
      expiration_date = expiration;
      hide_email = parsed.hide_email;
      disabled = parsed.disabled;
      revision_date = c.now;
    })

-- PUT /sends/:id
unfoldable pub update : Context → String → String → SendBody → M Db Send
update c id salt body = do
  enforce_disable_send_policy c
  send ← load_own_send c id
  let parsed = parse_send_data body
  err_if (not (parsed.atype == send.atype)) "Sends can't change type"
  err_if (send.atype == SendType.text && not (is_some parsed.text)) "Send data not provided"
  deletion ← from_result (check_deletion c parsed.deletion_date)
  expiration ← from_result (read_expiration parsed.expiration_date)
  let changed = updated_send c salt parsed send deletion expiration
  store_send changed
  touch c
  notify UpdateType.sync_send_update c.user.uuid
  pure changed

-- PUT /sends/:id/remove-password
unfoldable pub remove_password : Context → String → M Db Send
remove_password c id = do
  send ← load_own_send c id
  let changed = record send {
    password_hash = none;
    password_salt = none;
    password_iter = none;
    revision_date = c.now;
  }
  store_send changed
  notify UpdateType.sync_send_update c.user.uuid
  pure changed

-- The blob of a file Send is deleted with it.
abbrev delete_blob : Send → M Db (Unit {0})
delete_blob send = elim send.content [
  | SendContent.file id _ _ ↦
      when (not (id == "")) (
        modify λ d. record d { blobs = delete_where (λ b. b.key == file_key send.uuid id) d.blobs })
  | _ ↦ pure tt
]

-- DELETE /sends/:id
unfoldable pub delete : Context → String → M Db (Unit {0})
delete c id = do
  send ← load_own_send c id
  when (send.atype == SendType.file) (delete_blob send)
  modify λ d. record d { sends = delete_where (λ s. s.uuid == send.uuid) d.sends }
  touch c
  notify UpdateType.sync_send_delete c.user.uuid
