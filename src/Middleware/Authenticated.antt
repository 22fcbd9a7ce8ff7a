-- ===== src/Middleware/Authenticated.antt =====
-- What a request that the guard authenticated has shown.
use vaultur.Prelude.{
  ◌/◌, ◌≤◌, String, true, ◌≡◌, ◌⊎◌, inl, inr, ◌==◌, string_instance, ◌&&◌, some, Option-cases,
  Bool-cases, arith, eq_iff, Memᴰ, and-true,
}
use vaultur.Prelude.Table.{find_first, find_first-holds, find_first-mem, any-mem}
use vaultur.Web.{ok}
use vaultur.Db.{Db, User}
use vaultur.Context.{Claims, issuer_of, decode_token}
use vaultur.Middleware.Auth.{
  Incoming, StampException, AuthContext, authenticated, authenticate, require_auth, bearer_token,
  is_excepted, is_public_api_route,
}

-- The user's exception for the stamp `stamp`: it has not expired, and the path ends with one of its routes.
pub record IsExcepted (i : Incoming) (user : User) (stamp : String) : Type 0 where
  pub text : String
  pub stored : user.stamp_exception ≡ some text
  pub exception : StampException
  pub parsed : i.parse_exception text ≡ some exception
  pub same_stamp : exception.security_stamp ≡ stamp
  pub in_time : i.now / 1000 ≤ exception.expire
  pub route : String
  pub listed : Memᴰ route exception.routes
  pub on_route : i.ends_with i.pathname route ≡ true

is_excepted-IsExcepted :
    (i : Incoming) (user : User) (stamp : String)
    → is_excepted i user stamp ≡ true
    → IsExcepted i user stamp
unfolding is_excepted
is_excepted-IsExcepted i user stamp h = elim (Option-cases user.stamp_exception) [
  | inl e ↦ absurd (let q = rw (e, is_excepted) at h in cc)
  | inr (text, e) ↦ elim (Bool-cases (text == "")) [
    | inl b ↦ absurd (let q = rw (e, is_excepted, b) at h in cc)
    | inr b ↦ elim (Option-cases (i.parse_exception text)) [
      | inl f ↦ absurd (let q = rw (e, is_excepted, b, f) at h in cc)
      | inr (x, f) ↦
          let (same, rest) = and-true _ _ (let q = rw (e, is_excepted, b, f) at h in q) in
          let (time, some_route) = and-true _ _ rest in
          let (r, m, k) = any-mem (λ r. i.ends_with i.pathname r) x.routes some_route in
          record {
            text = text;
            stored = e;
            exception = x;
            parsed = f;
            same_stamp = (eq_iff x.security_stamp stamp).0 same;
            in_time = ground arith;
            route = r;
            listed = m;
            on_route = k;
          }
    ]
  ]
]

-- The user and the device are stored, and the token, whose signature the platform verified, names
-- both; the user is enabled, and the stamp is theirs or excepted.
pub record IsAuthenticated (i : Incoming) (d : Db) (a : AuthContext) : Type 0 where
  pub verified : i.platform.verify i.now (bearer_token i) ≡ some a.claims
  pub for_login : a.claims.iss ≡ issuer_of i.platform i.config.domain "login"
  pub user_stored : Memᴰ a.user d.users
  pub of_user : a.user.uuid ≡ a.claims.sub
  pub enabled : a.user.enabled ≡ true
  pub stamp : (a.user.security_stamp ≡ a.claims.sstamp) ⊎ IsExcepted i a.user a.claims.sstamp
  pub device_stored : Memᴰ a.device d.devices
  pub of_device : a.device.uuid ≡ a.claims.device
  pub own_device : a.device.user_uuid ≡ a.user.uuid

decoded :
    (i : Incoming) (token issuer : String) (claims : Claims)
    → decode_token i.platform i.now token issuer ≡ some claims
    → (i.platform.verify i.now token ≡ some claims) × (claims.iss ≡ issuer)
unfolding decode_token
decoded i token issuer claims h = elim (Option-cases (i.platform.verify i.now token)) [
  | inl e ↦ ground arith
  | inr (k, e) ↦ elim (Bool-cases (k.iss == issuer)) [
    | inl t ↦ let same : k ≡ claims = ground arith in rw (← same) (e, (eq_iff k.iss issuer).0 t)
    | inr t ↦ ground arith
  ]
]

-- The branches of the guard, one after the other.
authenticate-ok :
    (i : Incoming) (d e : Db) (a : AuthContext)
    → authenticate i d ≡ (e, ok a)
    → (decode_token i.platform i.now (bearer_token i) (issuer_of i.platform i.config.domain "login")
        ≡ some a.claims)
      × (find_first (λ u. u.uuid == a.claims.sub) d.users ≡ some a.user)
      × (a.user.enabled ≡ true)
      × (((a.user.security_stamp == a.claims.sstamp) ≡ true)
          ⊎ (is_excepted i a.user a.claims.sstamp ≡ true))
      × (find_first (λ v. v.uuid == a.claims.device && v.user_uuid == a.user.uuid) d.devices
          ≡ some a.device)
unfolding authenticate
authenticate-ok i d e a h = ground arith

-- The two ways through the guard.
passages :
    (i : Incoming) (d e : Db) (a : AuthContext)
    → require_auth i d ≡ (e, ok (authenticated a))
    → authenticate i d ≡ (e, ok a)
unfolding require_auth authenticate
passages i d e a h = elim (Bool-cases (is_public_api_route i.method (i.segments i.pathname))) [
  | inl p ↦ ground arith
  | inr p ↦ ground arith
]

-- Whoever passes the guard with a user and a device: the login token was verified, both are rows of
-- the tables that the token names, the device is the user's, the user is enabled, and the token
-- carries the user's security stamp unless an exception of the user that has not expired admits the old
-- one on this route.
pub require_auth-IsAuthenticated :
    (i : Incoming) (d e : Db) (a : AuthContext)
    → require_auth i d ≡ (e, ok (authenticated a))
    → IsAuthenticated i d a
require_auth-IsAuthenticated i d e a h =
    let (t, u, on, stamp, v) = authenticate-ok i d e a (passages i d e a h) in
    let (verified, for_login) =
      decoded i (bearer_token i) (issuer_of i.platform i.config.domain "login") a.claims t in
    let (named, own) =
      and-true (a.device.uuid == a.claims.device) (a.device.user_uuid == a.user.uuid)
        (find_first-holds _ d.devices v) in
    record {
      verified = verified;
      for_login = for_login;
      user_stored = find_first-mem _ d.users u;
      of_user = (eq_iff a.user.uuid a.claims.sub).0 (find_first-holds _ d.users u);
      enabled = on;
      stamp = elim stamp [
        | inl s ↦ inl ((eq_iff a.user.security_stamp a.claims.sstamp).0 s)
        | inr s ↦ inr (is_excepted-IsExcepted i a.user a.claims.sstamp s)
      ];
      device_stored = find_first-mem _ d.devices v;
      of_device = (eq_iff a.device.uuid a.claims.device).0 named;
      own_device = (eq_iff a.device.user_uuid a.user.uuid).0 own;
    }
