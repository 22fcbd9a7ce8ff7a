-- ===== src/Middleware/Tests.antt =====
-- Alice's phone with its token, and a client without one on a public route.
use vaultur.Prelude.{false, none, some, ◌≡◌, refl, [], ◌∷◌}
use vaultur.Prelude.Table.{find_first, any}
use vaultur.Web.{ok}
use vaultur.Db.{Db, empty_db}
use vaultur.Context.{Claims, decode_token, issuer_of}
use vaultur.Fixtures.{alice, as_user, platform, config}
use vaultur.Middleware.Auth.{
  Incoming, AuthContext, authenticated, authenticate, require_auth, bearer_token,
  is_public_api_route, fits_path,
}
use vaultur.Middleware.Authenticated.{IsAuthenticated, require_auth-IsAuthenticated}

abbrev claims : Claims
claims = record {
  iss = "https://vault.example|login";
  sub = "a";
  exp = 7200;
  emer_id = none;
  member_id = none;
  org_id = none;
  email = none;
  sstamp = "stamp";
  device = "phone";
}

abbrev request : Incoming
request = record {
  platform = record platform { verify = λ now token. some claims };
  config = config;
  now = 1000;
  method = "GET";
  pathname = "/api/sync";
  authorization = some "Bearer token";
  access_token = none;
  segments = λ p. "" ∷ "api" ∷ "sync" ∷ [];
  ends_with = λ p s. false;
  parse_exception = λ s. none;
}

abbrev db : Db
db = record empty_db { users = alice ∷ []; devices = (as_user alice).device ∷ [] }

abbrev passed : AuthContext
passed = record { user = alice; device = (as_user alice).device; claims = claims }

passes : require_auth request db ≡ (db, ok (authenticated passed))
unfolding require_auth authenticate bearer_token is_public_api_route fits_path any find_first
    decode_token issuer_of
passes = refl

require_auth-IsAuthenticated_example : IsAuthenticated request db passed
require_auth-IsAuthenticated_example = require_auth-IsAuthenticated request db db passed passes
