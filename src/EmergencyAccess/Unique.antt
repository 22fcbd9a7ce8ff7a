-- ===== src/EmergencyAccess/Unique.antt =====
-- The uuids of the table of emergency access under the requests.
use vaultur.Prelude.{◌≡◌, refl, subst, sym, inl, inr, Option, none, some, List, string_instance}
use vaultur.Db.{EmergencyAccess, Db}
use vaultur.Db.Keys.{UniqueBy, update_where-UniqueBy, delete_where-UniqueBy, cons-UniqueBy}
use vaultur.Context.{Context}
use vaultur.EmergencyAccess.Invitation.{new_row, auto_accept}
use vaultur.EmergencyAccess.Listing
use vaultur.EmergencyAccess.Routes.{Request, handle}
use vaultur.EmergencyAccess.Cases
use vaultur.EmergencyAccess.Cases.{Writes, invited_row}

abbrev pub Unique : List EmergencyAccess → Type 0
Unique = UniqueBy λ r. r.uuid

module _ (c : Context) (d : Db) (unique : Unique d.emergency_access) where
  kept : (after : List EmergencyAccess) → after ≡ d.emergency_access → Unique after
  kept after e = subst Unique (sym e) unique

  written :
      (o : Option EmergencyAccess) (after : List EmergencyAccess) (G : EmergencyAccess → Type 0)
      (f : EmergencyAccess → EmergencyAccess → EmergencyAccess)
      → ((x y : EmergencyAccess) → (f x y).uuid ≡ y.uuid)
      → Writes o d.emergency_access after G f
      → Unique after
  written none after G f h w = kept after w
  written (some ea) after G f h (inl w) = kept after w
  written (some ea) after G f h (inr (_, w)) =
      subst Unique (sym w) (update_where-UniqueBy _ _ (f ea) d.emergency_access (h ea) unique)

  -- No request gives two relationships one uuid.
  pub handle-Unique : (r : Request) → Unique (handle c r d).emergency_access
  unfolding handle new_row auto_accept
  handle-Unique Request.trusted = kept _ (Listing.trusted-keeps c d)
  handle-Unique Request.granted = kept _ (Listing.granted-keeps c d)
  handle-Unique (Request.invite fresh body) = elim (Cases.invite-writes c fresh body d) [
    | inl e ↦ kept _ e
    | inr (h, _, e) ↦ subst Unique (sym e) (
        cons-UniqueBy _ (invited_row c fresh body d) d.emergency_access
          (Cases.invited_row-has_key c fresh body d h) unique)
  ]
  handle-Unique (Request.show id) = kept _ (Cases.show-keeps c id d)
  handle-Unique (Request.update id body) =
      written _ _ _ _ (λ x y. refl) (Cases.update_ea-Writes c id d body)
  handle-Unique (Request.delete id) = elim (Cases.delete_ea-deletes c id d) [
    | inl e ↦ kept _ e
    | inr e ↦ subst Unique (sym e) (delete_where-UniqueBy _ _ d.emergency_access unique)
  ]
  handle-Unique (Request.reinvite id) = kept _ (Cases.reinvite-keeps c id d)
  handle-Unique (Request.accept id token) =
      written _ _ _ _ (λ x y. refl) (Cases.accept-Writes c id d token)
  handle-Unique (Request.confirm id key) =
      written _ _ _ _ (λ x y. refl) (Cases.confirm-Writes c id d key)
  handle-Unique (Request.initiate id) = written _ _ _ _ (λ x y. refl) (Cases.initiate-Writes c id d)
  handle-Unique (Request.approve id) = written _ _ _ _ (λ x y. refl) (Cases.approve-Writes c id d)
  handle-Unique (Request.reject id) = written _ _ _ _ (λ x y. refl) (Cases.reject-Writes c id d)
  handle-Unique (Request.view id) = kept _ (Cases.view-keeps c id d)
  handle-Unique (Request.takeover id) = kept _ (Cases.takeover-keeps c id d)
  handle-Unique (Request.policies id) = kept _ (Cases.policies-keeps c id d)
  handle-Unique (Request.password id salt stamp body) =
      kept _ (Cases.set_password-keeps c id d salt stamp body)
