-- ===== src/AuthRequests/Tests.antt =====
-- A new device of Alice asks to be let in, and she approves it.
use vaultur.Prelude.{
  true, false, none, some, ◌≡◌, ◌≢◌, refl, inl, List, [], ◌∷◌, Memᴰ, arith, ◌<◌, ◌+◌,
}
use vaultur.Prelude.Table.{find_first, update_where}
use vaultur.Web.{ok}
use vaultur.Db.{AuthRequest, Db, empty_db}
use vaultur.Db.Keys.{has_key}
use vaultur.Context.{Context}
use vaultur.Users.{find_user_by_email}
use vaultur.Events.{log_user_event}
use vaultur.Fixtures.{alice, bob, as_user}
use vaultur.AuthRequests.Handlers.{
  CreateBody, AnswerBody, Answer, poll, answered, new_request, ttl, load_live, is_expired,
  insert_request, auth_request_json,
}
use vaultur.AuthRequests.Handlers
use vaultur.AuthRequests.Sealed.{Sealed}
use vaultur.AuthRequests.Final.{Request, create, answer, handle, run, Unique, Fate, handle-Fate}
use vaultur.AuthRequests.Once.{answered_is_final, secrets_need_approval}

abbrev question : CreateBody
question = record {
  email = some "alice@example.org";
  public_key = some "public";
  device_identifier = some "laptop";
  access_code = some "code";
}

abbrev approval : AnswerBody
approval = record {
  key = some "sealed key";
  master_password_hash = none;
  request_approved = true;
  device_identifier = some "phone";
}

abbrev start : Db
start = record empty_db { users = alice ∷ bob ∷ [] }

abbrev history : List (Context × Request)
history =
    (as_user bob, create "r" "e" (some 8) question) ∷ (as_user alice, answer "r" approval) ∷ []

abbrev row : AuthRequest
row = answered (as_user alice) approval (new_request (as_user bob) "r" 8 question alice)

abbrev shown : Answer
shown = auth_request_json (as_user bob) true row

no_rows : Sealed start.auth_requests
no_rows ar m = elim m [ ]

has_key_shown : shown.key ≢ none
unfolding auth_request_json answered
has_key_shown e = ground arith

polled : poll (as_user bob) "r" "code" (run history start) ≡ (run history start, ok shown)
unfolding run handle Handlers.create Handlers.answer poll insert_request load_live is_expired
    find_first update_where has_key find_user_by_email log_user_event answered new_request
polled = refl

secrets_need_approval_example :
    (ar : AuthRequest) × Memᴰ ar (run history start).auth_requests
    × (ar.uuid ≡ "r")
    × (ar.access_code ≡ "code")
    × (1000 < ar.creation_date + ttl)
    × (ar.approved ≡ some true)
secrets_need_approval_example =
    secrets_need_approval history start (run history start) (as_user bob) "r" "code" shown no_rows
      polled (inl has_key_shown)

abbrev asked : AuthRequest
asked = new_request (as_user bob) "r" 8 question alice

abbrev asked_db : Db
asked_db = record start { auth_requests = asked ∷ [] }

abbrev answered_db : Db
answered_db = record start { auth_requests = row ∷ [] }

one_row : (r : AuthRequest) → Unique (r ∷ [])
one_row r = (λ y m. elim m [ ], tt)

row_approved : row.approved ≢ none
unfolding answered
row_approved e = ground arith

abbrev denial : AnswerBody
denial = record approval { request_approved = false }

answered_is_final_example :
    Memᴰ row (run ((as_user alice, answer "r" denial) ∷ []) answered_db).auth_requests
answered_is_final_example =
    answered_is_final ((as_user alice, answer "r" denial) ∷ []) answered_db row (one_row row)
      row_approved (Memᴰ.head refl)

handle-Fate_example :
    Fate
      (as_user alice)
      asked_db
      (answer "r" approval)
      asked
      (handle (as_user alice) (answer "r" approval) asked_db).auth_requests
handle-Fate_example =
    handle-Fate (as_user alice) asked_db (answer "r" approval) (one_row asked) asked
      (Memᴰ.head refl)
