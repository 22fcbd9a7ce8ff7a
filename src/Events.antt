-- ===== src/Events.antt =====
-- services/events.ts: `logUserEvent` and `logOrgEvent`. An error of the insertion is swallowed, as the
-- source does, which here is a uuid that is taken.
use vaultur.Prelude.{ℕ, String, Option, none, some, ◌∷◌, if◌then◌else◌}
use vaultur.Web.{M, modify, when}
use vaultur.Db.{Db, EventRow}
use vaultur.Db.Keys.{has_key}
use vaultur.Context.{Context}

unfoldable pub insert_event : EventRow → M Db (Unit {0})
insert_event row =
    modify
      λ d. if has_key (λ e. e.uuid) row.uuid d.event then d else record d { event = row ∷ d.event }

unfoldable pub log_user_event : Context → String → ℕ → String → ℕ → M Db (Unit {0})
unfolding insert_event
log_user_event c fresh event_type user device_type = when c.config.org_events_enabled (
    insert_event (record {
      uuid = fresh;
      event_type = event_type;
      user_uuid = some user;
      org_uuid = none;
      cipher_uuid = none;
      collection_uuid = none;
      group_uuid = none;
      org_user_uuid = none;
      act_user_uuid = some user;
      policy_uuid = none;
      device_type = some device_type;
      ip_address = c.ip;
      event_date = c.now;
    }))

-- What an event of an organization is about: the one column that it sets.
pub data Target : Type 0 where
  cipher collection group org_user policy : String → Target
  no_target : Target

abbrev cipher_of : Target → Option String
cipher_of (cipher id) = some id
cipher_of _ = none

abbrev collection_of : Target → Option String
collection_of (collection id) = some id
collection_of _ = none

abbrev group_of : Target → Option String
group_of (group id) = some id
group_of _ = none

abbrev org_user_of : Target → Option String
org_user_of (org_user id) = some id
org_user_of _ = none

abbrev policy_of : Target → Option String
policy_of (policy id) = some id
policy_of _ = none

-- `logOrgEvent` by the user of the request; some callers leave the device out.
unfoldable pub log_org_event : Context → String → ℕ → String → Target → Option ℕ → M Db (Unit {0})
unfolding insert_event
log_org_event c fresh event_type org target device_type = when c.config.org_events_enabled (
    insert_event (record {
      uuid = fresh;
      event_type = event_type;
      user_uuid = none;
      org_uuid = some org;
      cipher_uuid = cipher_of target;
      collection_uuid = collection_of target;
      group_uuid = group_of target;
      org_user_uuid = org_user_of target;
      act_user_uuid = some c.user.uuid;
      policy_uuid = policy_of target;
      device_type = device_type;
      ip_address = c.ip;
      event_date = c.now;
    }))
