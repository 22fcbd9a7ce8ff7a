-- ===== src/Fixtures.antt =====
-- Concrete users, a platform, a configuration and contexts for the tests of all parts.
use Prim.Native.String
use vaultur.Prelude.{String, true, false, none}
use vaultur.Db.{User, Device}
use vaultur.Context.{Config, Platform, Context}

abbrev pub platform : Platform
platform = record {
  origin = λ d. d;
  trim_lower = λ s. s;
  sign = λ c. c.sub;
  verify = λ now t. none;
  hex_of_base64url = λ s. s;
  pbkdf2 = λ p s n. String.◌++◌ p s;
}

abbrev pub config : Config
config = record {
  domain = "https://vault.example";
  emergency_access_allowed = true;
  sends_allowed = true;
  org_events_enabled = false;
  org_groups_enabled = true;
  invitations_allowed = true;
  email_from = "";
  password_iterations = 600000;
  login_ratelimit_max_burst = 10;
  login_ratelimit_user_max_failures = 5;
}

abbrev user_named : String → String → User
user_named uuid email = record {
  uuid = uuid;
  enabled = true;
  updated_at = 0;
  email = email;
  name = email;
  password_hash = "hash";
  salt = "salt";
  password_iterations = 600000;
  akey = "key";
  security_stamp = "stamp";
  stamp_exception = none;
  client_kdf_type = 0;
  client_kdf_iter = 600000;
  client_kdf_memory = none;
  client_kdf_parallelism = none;
  avatar_color = none;
}

abbrev pub alice : User
alice = user_named "a" "alice@example.org"

abbrev pub bob : User
bob = user_named "b" "bob@example.org"

abbrev phone : User → Device
phone u = record { uuid = "phone"; user_uuid = u.uuid; name = "phone"; atype = 0 }

abbrev pub as_user : User → Context
as_user u = record {
  platform = platform;
  config = config;
  user = u;
  device = phone u;
  now = 1000;
  ip = "192.0.2.1";
  email_bound = false;
  storage_max_bytes = 1000;
}
