-- ===== src/Sends/Tests.antt =====
-- Alice's text Send, which may be opened once.
use vaultur.Prelude.{
  ◌≢◌, ◌∙◌, sym, or_else, eq_iff, ap, String, true, false, none, some, ◌≡◌, refl, ◌⊎◌, List, [],
  ◌∷◌, Memᴰ, arith, ◌≤◌, ◌+◌, string_instance,
}
use vaultur.Prelude.Table.{find_first}
use vaultur.Shared.SendType
use vaultur.Web.{ok, err}
use vaultur.Db.{Send, SendContent, Db, empty_db}
use vaultur.Context.{Context}
use vaultur.Fixtures.{alice, bob, as_user}
use vaultur.Sends.Common.{
  SendBody, DateText, new_send_from_data, parse_send_data, check_deletion, read_expiration,
  with_password, hash_send_password, disable_send_applies, only_delete,
}
use vaultur.Sends.Manage.{show, upload, update, remove_password, delete}
use vaultur.Sends.Counting.{Request, open_text, given_out, row}
use vaultur.Sends.Limit.{given_out-bounded}
use vaultur.Sends.New.{IsNewSend, new_send_from_data-IsNewSend}
use vaultur.Sends.Owner.{foreign_send, others_kept}

abbrev id : String
id = "00000000-0000-0000-0000-000000000000"

abbrev hex : String
hex = "00000000000000000000000000000000"

abbrev note : Send
note = record {
  uuid = id;
  user_uuid = some "a";
  name = "note";
  notes = none;
  atype = SendType.text;
  content = SendContent.text (record { shown = "hello"; id = none; size = 0 });
  akey = "key";
  password_hash = none;
  password_salt = none;
  password_iter = none;
  max_access_count = some 1;
  access_count = 0;
  creation_date = 0;
  revision_date = 0;
  expiration_date = none;
  deletion_date = 5000;
  disabled = false;
  hide_email = none;
}

abbrev db : Db
db = record empty_db { users = alice ∷ bob ∷ []; sends = note ∷ [] }

abbrev twice : List (Context × Request)
twice = (as_user bob, open_text hex none) ∷ (as_user bob, open_text hex none) ∷ []

note_row : row id db ≡ some note
unfolding find_first
note_row = refl

given_out-bounded_example : given_out id twice db + 0 ≤ 1
given_out-bounded_example = given_out-bounded twice db id note 1 note_row refl refl (omega arith)

abbrev body : SendBody
body = record {
  atype = some 0;
  key = some "key";
  password = none;
  max_access_count = none;
  expiration_date = DateText.missing;
  deletion_date = DateText.instant 9000;
  disabled = false;
  hide_email = none;
  name = some "mine";
  notes = none;
  text = some (record { shown = "bye"; id = none; size = 0 });
  file = none;
  file_length = none;
}

not_bobs : (s : Send) → Memᴰ s db.sends → s.uuid ≡ id → s.user_uuid ≢ some "b"
not_bobs s (Memᴰ.head e) named own =
    let same : "a" ≡ "b" = ap (λ o. or_else o "") (sym (ap (λ r. r.user_uuid) e) ∙ own) in
    let test : false ≡ true = (eq_iff "a" "b").1 same in absurd (cc)
not_bobs s (Memᴰ.tail m) named own = elim m [ ]

foreign_send_example :
    (show (as_user bob) id db ≡ (db, err 404 "Send not found"))
    × (upload (as_user bob) id "f" (some 1) db ≡ (db, err 404 "Send not found"))
    × (remove_password (as_user bob) id db ≡ (db, err 404 "Send not found"))
    × (delete (as_user bob) id db ≡ (db, err 404 "Send not found"))
    × ((update (as_user bob) id "salt" body db ≡ (db, err 404 "Send not found"))
        ⊎ ((disable_send_applies (as_user bob) db ≡ true)
            × (update (as_user bob) id "salt" body db ≡ (db, err 400 only_delete))))
foreign_send_example = foreign_send (as_user bob) id db not_bobs "salt" "f" body (some 1)

others_kept_example :
    Memᴰ note (upload (as_user bob) id "f" (some 1) db).0.sends
    × Memᴰ note (update (as_user bob) id "salt" body db).0.sends
    × Memᴰ note (remove_password (as_user bob) id db).0.sends
    × Memᴰ note (delete (as_user bob) id db).0.sends
others_kept_example =
    others_kept (as_user bob) db (λ y m. elim m [ ], tt) id "salt" "f" body (some 1) note
      (Memᴰ.head refl) refl

abbrev hashing : Context
hashing = record (as_user alice) {
  platform = record (as_user alice).platform { pbkdf2 = λ password salt rounds. "digest" };
}

abbrev locked_body : SendBody
locked_body = record body { password = some "secret" }

abbrev locked_note : Send
locked_note = record note {
  name = "mine";
  content = SendContent.empty;
  password_hash = some "digest";
  password_salt = some "salt";
  password_iter = some 100000;
  max_access_count = none;
  creation_date = 1000;
  revision_date = 1000;
  deletion_date = 9000;
}

made_note : new_send_from_data hashing id "salt" (parse_send_data locked_body) ≡ ok locked_note
unfolding new_send_from_data parse_send_data check_deletion read_expiration with_password
    hash_send_password
made_note = refl

new_send_from_data-IsNewSend_example :
    IsNewSend hashing (parse_send_data locked_body) (record locked_note {
      content = SendContent.text (record { shown = "bye"; id = none; size = 0 });
    })
new_send_from_data-IsNewSend_example =
    new_send_from_data-IsNewSend hashing "salt" (λ p s n. refl) refl id
      (parse_send_data locked_body) locked_note made_note
      (SendContent.text (record { shown = "bye"; id = none; size = 0 }))
