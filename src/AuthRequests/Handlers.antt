-- ===== src/AuthRequests/Handlers.antt =====
-- api/auth-requests.ts: a new device asks to be let in, and a device of the user answers.
use vaultur.Prelude.{
  ℕ, ◌+◌, ◌*◌, String, Bool, true, false, not, Option, none, some, ◌==◌, string_instance, ◌&&◌,
  ◌||◌, leb, if◌then◌else◌, truthy, or_else, is_some, List, ◌∷◌,
}
use vaultur.Prelude.Table.{find_first, find_many, update_where}
use vaultur.Shared.DeviceType
use vaultur.Shared.DeviceType.{device_type_name}
use vaultur.Shared.EventType
use vaultur.Shared.UpdateType
use vaultur.Web.{
  ok, M, pure, ◌>>=◌, ◌>>◌, modify, get, err_code, bad_request, not_found, when, err_if,
}
use vaultur.Db.{AuthRequest, Db, Effect, User}
use vaultur.Db.Keys.{has_key}
use vaultur.Context.{Context}
use vaultur.Users.{find_user_by_email}
use vaultur.Events.{log_user_event}

-- 15 minutes in milliseconds
abbrev pub ttl : ℕ
ttl = 15 * 60 * 1000

-- `isExpired`
unfoldable pub is_expired : Context → AuthRequest → Bool
is_expired c ar = leb (ar.creation_date + ttl) c.now

pub record Answer : Type 0 where
  pub id : String
  pub public_key : String
  pub request_device_type : String
  pub request_ip_address : String
  pub key : Option String
  pub master_password_hash : Option String
  pub creation_date : ℕ
  pub response_date : Option ℕ
  pub request_approved : Bool
  pub origin : String

-- `authRequestJson`
unfoldable pub auth_request_json : Context → Bool → AuthRequest → Answer
auth_request_json c include_key ar = record {
  id = ar.uuid;
  public_key = ar.public_key;
  request_device_type = device_type_name ar.device_type;
  request_ip_address = ar.request_ip;
  key = (if include_key then ar.enc_key else none);
  master_password_hash = (if include_key then ar.master_password_hash else none);
  creation_date = ar.creation_date;
  response_date = ar.response_date;
  request_approved = or_else ar.approved false;
  origin = c.platform.origin c.config.domain;
}

pub record CreateBody : Type 0 where
  pub email : Option String
  pub public_key : Option String
  pub device_identifier : Option String
  pub access_code : Option String

-- `!email || !publicKey || !deviceIdentifier || !accessCode`
abbrev pub is_incomplete : CreateBody → Bool
is_incomplete body =
    not (truthy body.email)
    || not (truthy body.public_key)
    || not (truthy body.device_identifier)
    || not (truthy body.access_code)

abbrev require_user : Option User → M Db User
require_user none d = bad_request "AuthRequest doesn't exist" d
require_user (some u) d = (d, ok u)

-- `db.insert(authRequests).values(ar)`
unfoldable pub insert_request : AuthRequest → M Db (Unit {0})
insert_request ar d =
    if has_key (λ r. r.uuid) ar.uuid d.auth_requests
    then err_code "Internal server error" 500 d
    else (record d { auth_requests = ar ∷ d.auth_requests }, ok tt)

-- The row of a new request.
unfoldable pub new_request : Context → String → ℕ → CreateBody → User → AuthRequest
new_request c fresh device_type body user = record {
  uuid = fresh;
  user_uuid = user.uuid;
  organization_uuid = none;
  request_device_identifier = or_else body.device_identifier "";
  device_type = device_type;
  request_ip = c.ip;
  response_device_id = none;
  access_code = or_else body.access_code "";
  public_key = or_else body.public_key "";
  enc_key = none;
  master_password_hash = none;
  approved = none;
  creation_date = c.now;
  response_date = none;
  authentication_date = none;
}

-- POST /auth-requests, with the random uuids of the request and of the event, and the header
-- `Device-Type` where it is a number
unfoldable pub create : Context → String → String → Option ℕ → CreateBody → M Db Answer
create c fresh event_uuid header body = do
  err_if (is_incomplete body) "Missing required fields"
  found ← get (find_user_by_email c (or_else body.email ""))
  user ← require_user found
  let device_type = or_else header DeviceType.unknown_browser
  let ar = new_request c fresh device_type body user
  insert_request ar
  modify λ d. record d { outbox = Effect.notice UpdateType.auth_request user.uuid ∷ d.outbox }
  log_user_event c event_uuid EventType.user_logged_in user.uuid device_type
  pure (auth_request_json c false ar)

-- The three tests of the poll, which answers all with one error.
abbrev pub is_answerable : Context → String → AuthRequest → Bool
is_answerable c code ar = not (is_expired c ar) && ar.access_code == code

abbrev require_answerable : Context → String → Option AuthRequest → M Db AuthRequest
require_answerable c code none d = not_found "AuthRequest doesn't exist" d
require_answerable c code (some ar) d =
    if is_answerable c code ar then (d, ok ar) else not_found "AuthRequest doesn't exist" d

-- GET /auth-requests/:id/response, which the unauthenticated device polls
unfoldable pub poll : Context → String → String → M Db Answer
poll c id code = do
  found ← get (λ d. find_first (λ ar. ar.uuid == id) d.auth_requests)
  ar ← require_answerable c code found
  pure (auth_request_json c true ar)

-- `listAuthRequests`, less the order of the answer
unfoldable pub list_auth_requests : Context → M Db (List AuthRequest)
list_auth_requests c = get λ d.
    find_many (λ ar. not (is_expired c ar))
      (find_many (λ ar. ar.user_uuid == c.user.uuid) d.auth_requests)

abbrev pub is_own : String → String → AuthRequest → Bool
is_own id user ar = ar.uuid == id && ar.user_uuid == user

abbrev require_live : Context → Option AuthRequest → M Db AuthRequest
require_live c none d = bad_request "AuthRequest doesn't exist" d
require_live c (some ar) d =
    if is_expired c ar then bad_request "AuthRequest doesn't exist" d else (d, ok ar)

-- The request of the user that is still open to an answer by time.
unfoldable pub load_live : Context → String → M Db AuthRequest
load_live c id d = require_live c (find_first (is_own id c.user.uuid) d.auth_requests) d

-- GET /auth-requests/:id
unfoldable pub show : Context → String → M Db Answer
show c id = do ar ← load_live c id; pure (auth_request_json c true ar)

pub record AnswerBody : Type 0 where
  pub key : Option String
  pub master_password_hash : Option String
  pub request_approved : Bool
  pub device_identifier : Option String

-- What the answer sets.
unfoldable pub answered : Context → AnswerBody → AuthRequest → AuthRequest
answered c body ar = record ar {
  approved = some body.request_approved;
  enc_key = (if body.request_approved then body.key else none);
  master_password_hash = (if body.request_approved then body.master_password_hash else none);
  response_device_id = body.device_identifier;
  response_date = some c.now;
}

-- The two notices of an approval: to the user's devices and to the device that asked.
abbrev notify_response : String → String → M Db (Unit {0})
notify_response user id = modify λ d. record d {
  outbox =
      Effect.anonymous_notice UpdateType.auth_request_response id
      ∷ Effect.notice UpdateType.auth_request_response user
      ∷ d.outbox;
}

abbrev reload : Option AuthRequest → M Db AuthRequest
reload none d = err_code "Internal server error" 500 d
reload (some ar) d = (d, ok ar)

-- PUT /auth-requests/:id
unfoldable pub answer : Context → String → AnswerBody → M Db Answer
answer c id body = do
  err_if (not (truthy body.device_identifier)) "deviceIdentifier cannot be blank"
  ar ← load_live c id
  err_if (is_some ar.approved) "An authentication request with the same device already exists"
  modify λ d. record d {
    auth_requests = update_where (λ r. r.uuid == ar.uuid) (answered c body) d.auth_requests;
  }
  when body.request_approved (notify_response c.user.uuid ar.uuid)
  found ← get (λ d. find_first (λ r. r.uuid == ar.uuid) d.auth_requests)
  updated ← reload found
  pure (auth_request_json c true updated)
