-- ===== src/Jobs/Scheduled.antt =====
-- jobs/scheduled.ts: `runScheduledJobs`.
use Prim.Native.String
use vaultur.Prelude.{
  ℕ, ◌-◌, ◌*◌, ◌/◌, String, Bool, true, false, Option, none, some, ◌==◌, nat_instance,
  string_instance, ◌&&◌, not, ltb, if◌then◌else◌, is_some, List, [], ◌∷◌,
}
use vaultur.Prelude.Table.{find_many, delete_where, any}
use vaultur.Shared.SendType
use vaultur.Db.{Db, Cipher, Send, AuthRequest, TwoFactorIncomplete, Blob}

abbrev pub is_empty {ℓ} : {A : Type ℓ} → List A → Bool
is_empty [] = true
is_empty (x ∷ xs) = false

-- Which of the two crons fired: the weekly one, whose text starts with "12 7", or the other.
pub data Cron : Type 0 where
  weekly quarter_hourly : Cron

-- What the job reads: the clock, TRASH_AUTO_DELETE_DAYS as a whole number of days (0 for a negative one,
-- none for a text that is no number), and whether a key starts with a prefix.
pub record Environment : Type 0 where
  pub now : ℕ
  pub trash_auto_delete_days : Option ℕ
  pub starts_with : String → String → Bool

abbrev before : Option ℕ → ℕ → Bool
before none cutoff = false
before (some t) cutoff = ltb t cutoff

abbrev pub in_old_trash : Environment → ℕ → Cipher → Bool
in_old_trash env days cipher = before cipher.deleted_at (env.now - days * 24 * 60 * 60 * 1000)

-- The deletion of ciphers, with the rows that refer to them (`onDelete: "cascade"`).
unfoldable pub delete_ciphers : (Cipher → Bool) → Db → Db
delete_ciphers p d =
    let gone = λ (id : String). any (λ cipher. cipher.uuid == id && p cipher) d.ciphers in
    record d {
      ciphers = delete_where p d.ciphers;
      folders_ciphers = delete_where (λ r. gone r.cipher_uuid) d.folders_ciphers;
      favorites = delete_where (λ r. gone r.cipher_uuid) d.favorites;
      archives = delete_where (λ r. gone r.cipher_uuid) d.archives;
      attachments = delete_where (λ r. gone r.cipher_uuid) d.attachments;
      ciphers_collections = delete_where (λ r. gone r.cipher_uuid) d.ciphers_collections;
    }

-- The weekly job after `days <= 0` is tested.
unfoldable pub purge_trash_after : ℕ → Environment → Db → Db
purge_trash_after days env d =
    if days == 0
    then d
    else if is_empty (find_many (in_old_trash env days) d.ciphers)
    then d
    else delete_ciphers (in_old_trash env days) d

-- The weekly job. Without a number of days the cutoff is no date, and `toDb` throws before any deletion.
unfoldable pub purge_trash : Environment → Db → Db
purge_trash env d = elim env.trash_auto_delete_days [
  | none ↦ d
  | some days ↦ purge_trash_after days env d
]

abbrev pub is_past : Environment → Send → Bool
is_past env send = ltb send.deletion_date env.now

abbrev pub is_unanswered : Environment → AuthRequest → Bool
is_unanswered env ar = ltb ar.creation_date (env.now - 15 * 60 * 1000) && not (is_some ar.approved)

abbrev pub is_stale : Environment → TwoFactorIncomplete → Bool
is_stale env t = ltb t.login_time (env.now - 24 * 60 * 60 * 1000)

-- `store.deletePrefix` for each expired file Send.
unfoldable pub delete_blobs : Environment → List Send → List Blob → List Blob
delete_blobs env [] blobs = blobs
delete_blobs env (s ∷ expired) blobs = delete_blobs env expired (
    if s.atype == SendType.file
    then delete_where (λ b. env.starts_with b.key (String.◌++◌ "sends/" (String.◌++◌ s.uuid "/")))
        blobs
    else blobs)

abbrev pub delete_if_any {ℓ} : {A : Type ℓ} → (A → Bool) → List A → List A
delete_if_any p xs = if is_empty (find_many p xs) then xs else delete_where p xs

-- `purgeExpiredDuoContexts` (services/duo.ts), whose rows expire at a second
unfoldable pub purge_expired_duo_contexts : Environment → Db → Db
purge_expired_duo_contexts env d = record d {
  twofactor_duo_ctx = delete_where (λ x. ltb x.exp (env.now / 1000)) d.twofactor_duo_ctx;
}

abbrev pub sso_auth_expiration : ℕ
sso_auth_expiration = 10 * 60 * 1000

-- `purgeExpiredSsoAuth` (services/sso.ts)
unfoldable pub purge_expired_sso_auth : Environment → Db → Db
purge_expired_sso_auth env d = record d {
  sso_auth = delete_where (λ x. ltb x.created_at (env.now - sso_auth_expiration)) d.sso_auth;
}

-- The job of every quarter of an hour.
unfoldable pub purge_expired : Environment → Db → Db
purge_expired env d =
    if is_empty (find_many (is_past env) d.sends)
      && (is_empty (find_many (is_unanswered env) d.auth_requests)
          && is_empty (find_many (is_stale env) d.twofactor_incomplete))
    then d
    else purge_expired_sso_auth env (
        purge_expired_duo_contexts env (record d {
          blobs = delete_blobs env (find_many (is_past env) d.sends) d.blobs;
          sends = delete_if_any (is_past env) d.sends;
          auth_requests = delete_if_any (is_unanswered env) d.auth_requests;
          twofactor_incomplete = delete_if_any (is_stale env) d.twofactor_incomplete;
        }))

-- `runScheduledJobs`
unfoldable pub run_scheduled_jobs : Cron → Environment → Db → Db
run_scheduled_jobs weekly env d = purge_trash env d
run_scheduled_jobs quarter_hourly env d = purge_expired env d
