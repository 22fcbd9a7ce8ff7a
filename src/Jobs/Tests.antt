-- ===== src/Jobs/Tests.antt =====
-- A Send of Alice that has expired, beside an old login in the trash.
use vaultur.Prelude.{◌+◌, ◌≤◌, false, none, some, ◌≢◌, ◌↔◌, ◌⊎◌, refl, [], ◌∷◌, Memᴰ, arith}
use vaultur.Db.{
  Db, empty_db, Cipher, Send, SendContent, Attachment, AuthRequest, TwoFactorIncomplete,
}
use vaultur.Jobs.Scheduled.{Environment, run_scheduled_jobs, weekly, quarter_hourly}
use vaultur.Jobs.Purge.{purged_iff}
use vaultur.Jobs.Trash.{IsRecent, trash_iff}
use vaultur.Prelude.Table.{All}

abbrev environment : Environment
environment = record {
  now = 9000000000;
  trash_auto_delete_days = some 30;
  starts_with = λ key prefix. false;
}

abbrev expired : Send
expired = record {
  uuid = "s";
  user_uuid = some "a";
  name = "note";
  notes = none;
  atype = 0;
  content = SendContent.text (record { shown = "hello"; id = none; size = 0 });
  akey = "key";
  password_hash = none;
  password_salt = none;
  password_iter = none;
  max_access_count = none;
  access_count = 0;
  creation_date = 0;
  revision_date = 0;
  expiration_date = none;
  deletion_date = 5000;
  disabled = false;
  hide_email = none;
}

abbrev open_request : AuthRequest
open_request = record {
  uuid = "r";
  user_uuid = "a";
  organization_uuid = none;
  request_device_identifier = "laptop";
  device_type = 8;
  request_ip = "192.0.2.1";
  response_device_id = none;
  access_code = "code";
  public_key = "public";
  enc_key = none;
  master_password_hash = none;
  approved = none;
  creation_date = 8999999000;
  response_date = none;
  authentication_date = none;
}

abbrev login : TwoFactorIncomplete
login = record { user_uuid = "a"; device_uuid = "laptop"; login_time = 1000 }

abbrev trashed : Cipher
trashed = record {
  uuid = "c";
  updated_at = 0;
  user_uuid = some "a";
  organization_uuid = none;
  atype = 1;
  name = "login";
  deleted_at = some 1000;
}

abbrev enclosure : Attachment
enclosure = record { id = "f"; cipher_uuid = "c"; file_name = "scan"; file_size = 10 }

abbrev db : Db
db = record empty_db {
  ciphers = trashed ∷ [];
  attachments = enclosure ∷ [];
  sends = expired ∷ [];
  auth_requests = open_request ∷ [];
  twofactor_incomplete = login ∷ [];
}

purged_iff_example :
    (Memᴰ expired (run_scheduled_jobs quarter_hourly environment db).sends
      ↔ (Memᴰ expired db.sends × (9000000000 ≤ 5000)))
    × (Memᴰ open_request (run_scheduled_jobs quarter_hourly environment db).auth_requests ↔ (
        Memᴰ open_request db.auth_requests
        × ((9000000000 ≤ 8999999000 + 900000) ⊎ (open_request.approved ≢ none))))
    × (Memᴰ login (run_scheduled_jobs quarter_hourly environment db).twofactor_incomplete
        ↔ (Memᴰ login db.twofactor_incomplete × (9000000000 ≤ 1000 + 86400000)))
purged_iff_example = purged_iff environment db expired open_request login

trash_iff_example :
    (Memᴰ trashed (run_scheduled_jobs weekly environment db).ciphers
      ↔ (Memᴰ trashed db.ciphers × IsRecent 9000000000 30 trashed))
    × (Memᴰ enclosure (run_scheduled_jobs weekly environment db).attachments ↔ (
        Memᴰ enclosure db.attachments
        × All (λ y. (y.uuid ≢ "c") ⊎ IsRecent 9000000000 30 y) db.ciphers))
trash_iff_example = trash_iff environment 30 db trashed enclosure refl (omega arith)
