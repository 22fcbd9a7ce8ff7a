-- ===== src/Middleware/Auth.antt =====
-- auth/middleware.ts: the public routes and `requireAuth`.
use Prim.Native.String
use vaultur.Prelude.{
  ℕ, ◌/◌, String, Bool, true, false, Option, none, some, ◌==◌, string_instance, ◌&&◌, not, leb,
  if◌then◌else◌, or_else, List, [], ◌∷◌,
}
use vaultur.Prelude.Table.{find_first, any}
use vaultur.Web.{ok, M, pure, ◌>>=◌, ◌>>◌, get, unauthorized, when}
use vaultur.Db.{Db, User, Device}
use vaultur.Context.{Config, Platform, Claims, issuer_of, decode_token}

-- What `JSON.parse` reads in the column `stampException`.
pub record StampException : Type 0 where
  pub routes : List String
  pub security_stamp : String
  pub expire : ℕ

-- A request with its header `Authorization` and its query `access_token`, and what reads texts: the
-- path between its slashes, `endsWith`, and `JSON.parse`, none where it throws.
pub record Incoming : Type 0 where
  pub platform : Platform
  pub config : Config
  pub now : ℕ
  pub method : String
  pub pathname : String
  pub authorization : Option String
  pub access_token : Option String
  pub segments : String → List String
  pub ends_with : String → String → Bool
  pub parse_exception : String → Option StampException

-- A segment of a path in a route: a text, or `[^/]+`.
pub data Segment : Type 0 where
  lit : String → Segment
  anything : Segment

abbrev fits : Segment → String → Bool
fits (lit s) t = s == t
fits anything t = not (t == "")

unfoldable pub fits_path : List Segment → List String → Bool
fits_path [] [] = true
fits_path [] (t ∷ ts) = false
fits_path (s ∷ ss) [] = false
fits_path (s ∷ ss) (t ∷ ts) = fits s t && fits_path ss ts

abbrev api : List Segment → List Segment
api route = lit "" ∷ lit "api" ∷ route

-- `PUBLIC_API_ROUTES`
abbrev pub public_api_routes : List (String × List Segment)
public_api_routes =
    ("POST", api (lit "accounts" ∷ lit "prelogin" ∷ []))
    ∷ ("POST", api (lit "accounts" ∷ lit "password-hint" ∷ []))
    ∷ ("POST", api (lit "accounts" ∷ lit "verify-email-token" ∷ []))
    ∷ ("POST", api (lit "accounts" ∷ lit "delete-recover" ∷ []))
    ∷ ("POST", api (lit "accounts" ∷ lit "delete-recover-token" ∷ []))
    ∷ ("POST", api (lit "two-factor" ∷ lit "send-email-login" ∷ []))
    ∷ ("POST", api (lit "two-factor" ∷ lit "recover" ∷ []))
    ∷ ("POST", api (lit "sends" ∷ lit "access" ∷ anything ∷ []))
    ∷ ("POST", api (lit "sends" ∷ anything ∷ lit "access" ∷ lit "file" ∷ anything ∷ []))
    ∷ ("GET", api (lit "sends" ∷ anything ∷ anything ∷ []))
    ∷ ("POST", api (lit "auth-requests" ∷ []))
    ∷ ("GET", api (lit "auth-requests" ∷ anything ∷ lit "response" ∷ []))
    ∷ ("GET", api (lit "devices" ∷ lit "knowndevice" ∷ []))
    ∷ ("GET", api (lit "organizations" ∷ anything ∷ lit "policies" ∷ lit "token" ∷ []))
    ∷ ("POST", api (lit "organizations" ∷ lit "domain" ∷ lit "sso" ∷ lit "verified" ∷ []))
    ∷ ("POST", api (lit "public" ∷ lit "organization" ∷ lit "import" ∷ []))
    ∷ []

-- `isPublicApiRoute`
unfoldable pub is_public_api_route : String → List String → Bool
is_public_api_route method path = any (λ r. r.0 == method && fits_path r.1 path) public_api_routes

-- The header or else the query, without "Bearer ".
unfoldable pub bearer_token : Incoming → String
bearer_token i =
    let header = or_else i.authorization (or_else i.access_token "") in
    if String.slice header 0 7 == "Bearer "
    then String.slice header 7 (String.len header)
    else header

-- Whether a stamp exception of the user lets an old stamp through.
unfoldable pub is_excepted : Incoming → User → String → Bool
is_excepted i user stamp = elim user.stamp_exception [
  | none ↦ false
  | some text ↦ if text == "" then false else elim (i.parse_exception text) [
    | none ↦ false
    | some exception ↦
        exception.security_stamp == stamp
        && (leb (i.now / 1000) exception.expire
            && any (λ r. i.ends_with i.pathname r) exception.routes)
  ]
]

-- `AuthContext`
pub record AuthContext : Type 0 where
  pub user : User
  pub device : Device
  pub claims : Claims

-- What the guard lets through: a public route, or an authenticated request.
pub data Passage : Type 0 where
  bypass : Passage
  authenticated : AuthContext → Passage

abbrev or_unauthorized : {A : Type 0} → String → Option A → M Db A
or_unauthorized message none d = unauthorized message d
or_unauthorized message (some a) d = (d, ok a)

unfoldable pub authenticate : Incoming → M Db AuthContext
authenticate i = do
  when (bearer_token i == "") (unauthorized "Missing access token")
  claims ← or_unauthorized "Invalid claim" (
      decode_token i.platform i.now (bearer_token i) (issuer_of i.platform i.config.domain "login"))
  found ← get λ d. find_first (λ u. u.uuid == claims.sub) d.users
  user ← or_unauthorized "Invalid claim" found
  when (not user.enabled) (unauthorized "This user has been disabled")
  when (not (user.security_stamp == claims.sstamp) && not (is_excepted i user claims.sstamp))
      (unauthorized "Invalid security stamp")
  listed ← get λ d. find_first (λ v. v.uuid == claims.device && v.user_uuid == user.uuid) d.devices
  device ← or_unauthorized "Invalid device id" listed
  pure (record { user = user; device = device; claims = claims })

-- `requireAuth`
unfoldable pub require_auth : Incoming → M Db Passage
require_auth i =
    if is_public_api_route i.method (i.segments i.pathname)
    then pure bypass
    else (do a ← authenticate i; pure (authenticated a))
