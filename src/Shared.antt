-- ===== src/Shared.antt =====
-- shared/constants.ts: the numbers of the wire protocol. The enumerations whose values come from
-- requests are numbers, a module each; those that only the server writes are data types here.
pub mod CipherType
pub mod SendType
pub mod MembershipType
pub mod MembershipStatus
pub mod OrgPolicyType
pub mod EmergencyAccessType
pub mod UpdateType
pub mod EventType
pub mod DeviceType
use vaultur.Prelude.{ℕ, Bool, true, ◌≡◌, ◌↔◌, arith, HasEqual, nat_eq}

pub data EmergencyAccessStatus : Type 0 where
  invited accepted confirmed recovery_initiated recovery_approved : EmergencyAccessStatus

abbrev pub status_value : EmergencyAccessStatus → ℕ
status_value EmergencyAccessStatus.invited = 0
status_value EmergencyAccessStatus.accepted = 1
status_value EmergencyAccessStatus.confirmed = 2
status_value recovery_initiated = 3
status_value recovery_approved = 4

pub emergency_access_status_iff :
    (a b : EmergencyAccessStatus) → (nat_eq (status_value a) (status_value b) ≡ true) ↔ (a ≡ b)
emergency_access_status_iff a b = ground arith

instance abbrev pub emergency_access_status_eq : HasEqual EmergencyAccessStatus
emergency_access_status_eq = record {
  equal = λ a b. nat_eq (status_value a) (status_value b);
  equal_iff = emergency_access_status_iff;
}
