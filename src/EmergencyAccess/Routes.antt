-- ===== src/EmergencyAccess/Routes.antt =====
-- api/emergency-access.ts: the routes, as the requests that users make.
use vaultur.Prelude.{String, Option, List, [], ◌∷◌}
use vaultur.Db.{Db}
use vaultur.Context.{Context}
use vaultur.EmergencyAccess.Listing
use vaultur.EmergencyAccess.Invitation
use vaultur.EmergencyAccess.Invitation.{InviteBody, UpdateBody}
use vaultur.EmergencyAccess.Recovery
use vaultur.EmergencyAccess.Recovery.{PasswordBody}

-- The random texts that a handler draws are part of the request.
pub data Request : Type 0 where
  trusted granted : Request
  invite : String → InviteBody → Request
  show : String → Request
  update : String → UpdateBody → Request
  delete : String → Request
  reinvite : String → Request
  accept : String → Option String → Request
  confirm : String → Option String → Request
  initiate approve reject view takeover policies : String → Request
  password : String → String → String → PasswordBody → Request

-- The state after a request, whatever it answered.
unfoldable pub handle : Context → Request → Db → Db
handle c trusted d = (Listing.trusted c d).0
handle c granted d = (Listing.granted c d).0
handle c (invite fresh body) d = (Invitation.invite c fresh body d).0
handle c (show id) d = (Invitation.show c id d).0
handle c (update id body) d = (Invitation.update_ea c id body d).0
handle c (delete id) d = (Invitation.delete_ea c id d).0
handle c (reinvite id) d = (Invitation.reinvite c id d).0
handle c (accept id token) d = (Invitation.accept c id token d).0
handle c (confirm id key) d = (Invitation.confirm c id key d).0
handle c (initiate id) d = (Recovery.initiate c id d).0
handle c (approve id) d = (Recovery.approve c id d).0
handle c (reject id) d = (Recovery.reject c id d).0
handle c (view id) d = (Recovery.view c id d).0
handle c (takeover id) d = (Recovery.takeover c id d).0
handle c (policies id) d = (Recovery.policies c id d).0
handle c (password id salt stamp body) d = (Recovery.set_password c id salt stamp body d).0

-- A history: requests with the context of each, in order.
unfoldable pub run : List (Context × Request) → Db → Db
run [] d = d
run ((c, r) ∷ rest) d = run rest (handle c r d)
