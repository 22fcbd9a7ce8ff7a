-- ===== src/Context.antt =====
-- What a handler reads beside the tables: the configuration (config.ts), the authenticated user
-- (auth/middleware.ts), the clock, the functions of the platform, and fresh random texts.
use vaultur.Prelude.{
  ℕ, String, Bool, Option, none, some, ◌==◌, string_instance, if◌then◌else◌, ◌&&◌, truthy,
}
use Prim.Native.String
use vaultur.Db.{User, Device}

pub record Config : Type 0 where
  pub domain : String
  pub emergency_access_allowed : Bool
  pub sends_allowed : Bool
  pub org_events_enabled : Bool
  pub org_groups_enabled : Bool
  pub invitations_allowed : Bool
  pub email_from : String
  pub password_iterations : ℕ
  pub login_ratelimit_max_burst : ℕ
  pub login_ratelimit_user_max_failures : ℕ

-- The claims of a token that the handlers read back (auth/jwt.ts).
pub record Claims : Type 0 where
  pub iss : String
  pub sub : String
  pub exp : ℕ
  pub emer_id : Option String
  pub member_id : Option String
  pub org_id : Option String
  pub email : Option String
  pub sstamp : String
  pub device : String

-- What is not of this repository: `new URL(domain).origin`, JavaScript's `trim` and `toLowerCase`,
-- the signing and verification of `hono/jwt` under the server's secret (verification reads the clock,
-- in milliseconds) PBKDF2 of WebCrypto, with the salt and the
-- digest under base64, and `Buffer`'s decoding of base64url into hexadecimal digits.
pub record Platform : Type 0 where
  pub origin : String → String
  pub trim_lower : String → String
  pub sign : Claims → String
  pub verify : ℕ → String → Option Claims
  pub hex_of_base64url : String → String
  pub pbkdf2 : String → String → ℕ → String

pub record Context : Type 0 where
  pub platform : Platform
  pub config : Config
  pub user : User
  pub device : Device
  pub now : ℕ
  pub ip : String
  pub email_bound : Bool
  pub storage_max_bytes : ℕ

-- `issuer(domain, kind)`
unfoldable pub issuer_of : Platform → String → String → String
issuer_of p domain kind = String.◌++◌ (p.origin domain) (String.◌++◌ "|" kind)

-- `decodeJwt`: none where it throws.
unfoldable pub decode_token : Platform → ℕ → String → String → Option Claims
decode_token p now token expected_issuer = elim (p.verify now token) [
  | none ↦ none
  | some claims ↦ if claims.iss == expected_issuer then some claims else none
]

-- Both in the context of a handler.
unfoldable pub issuer : Context → String → String
issuer c kind = issuer_of c.platform c.config.domain kind

unfoldable pub decode_jwt : Context → String → String → Option Claims
decode_jwt c token expected_issuer = decode_token c.platform c.now token expected_issuer

-- `createMailer(…).enabled`
unfoldable pub mailer_enabled : Context → Bool
mailer_enabled c = c.email_bound && truthy (some c.config.email_from)
