-- ===== src/Db/Accounts.antt =====
-- db/schema.ts: the rows of the tables on users, their devices and the requests between users. A
-- timestamp is a number of milliseconds: `toDb` and `fromDb` (db/datetime.ts) only change its
-- spelling, which keeps milliseconds and their order.
use vaultur.Prelude.{ℕ, String, Bool, Option}
use vaultur.Shared.{EmergencyAccessStatus}

pub record User : Type 0 where
  pub uuid : String
  pub enabled : Bool
  pub updated_at : ℕ
  pub email : String
  pub name : String
  pub password_hash : String
  pub salt : String
  pub password_iterations : ℕ
  pub akey : String
  pub security_stamp : String
  pub stamp_exception : Option String
  pub client_kdf_type : ℕ
  pub client_kdf_iter : ℕ
  pub client_kdf_memory : Option ℕ
  pub client_kdf_parallelism : Option ℕ
  pub avatar_color : Option String

pub record Device : Type 0 where
  pub uuid : String
  pub user_uuid : String
  pub name : String
  pub atype : ℕ

pub record TwoFactor : Type 0 where
  pub uuid : String
  pub user_uuid : String
  pub atype : ℕ
  pub enabled : Bool

pub record TwoFactorIncomplete : Type 0 where
  pub user_uuid : String
  pub device_uuid : String
  pub login_time : ℕ

pub record DuoContext : Type 0 where
  pub state : String
  pub user_email : String
  pub nonce : String
  pub exp : ℕ

pub record SsoAuth : Type 0 where
  pub state : String
  pub nonce : String
  pub created_at : ℕ
  pub updated_at : ℕ

pub record AuthRequest : Type 0 where
  pub uuid : String
  pub user_uuid : String
  pub organization_uuid : Option String
  pub request_device_identifier : String
  pub device_type : ℕ
  pub request_ip : String
  pub response_device_id : Option String
  pub access_code : String
  pub public_key : String
  pub enc_key : Option String
  pub master_password_hash : Option String
  pub approved : Option Bool
  pub creation_date : ℕ
  pub response_date : Option ℕ
  pub authentication_date : Option ℕ

pub record EmergencyAccess : Type 0 where
  pub uuid : String
  pub grantor_uuid : String
  pub grantee_uuid : Option String
  pub email : Option String
  pub key_encrypted : Option String
  pub atype : ℕ
  pub status : EmergencyAccessStatus
  pub wait_time_days : ℕ
  pub recovery_initiated_at : Option ℕ
  pub last_notification_at : Option ℕ
  pub updated_at : ℕ
  pub created_at : ℕ
