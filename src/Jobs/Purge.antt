-- ===== src/Jobs/Purge.antt =====
-- jobs/scheduled.ts: which rows the job of every quarter of an hour leaves.
use vaultur.Prelude.{
  ◌+◌, ◌≤◌, Bool, true, false, ◌≡◌, ◌≢◌, refl, ◌↔◌, ◌⊎◌, inl, inr, Bool-cases, and-true, arith,
  List, [], ◌∷◌, Memᴰ, sym, ap, ◌&&◌, none, Option-cases,
}
use vaultur.Prelude.Table.{find_many, delete_where, mem-delete_where, mem-delete_where_kept}
use vaultur.Db.{Db, Send, AuthRequest, TwoFactorIncomplete}
use vaultur.Jobs.Scheduled.{
  quarter_hourly, Environment, is_past, is_unanswered, is_stale, is_empty, delete_if_any,
  purge_expired, purge_expired_duo_contexts, purge_expired_sso_auth, run_scheduled_jobs,
}

module _ {ℓ} {A : Type ℓ} (p : A → Bool) where
  -- Without a row to delete the deletion changes nothing.
  pub delete_where-none : (xs : List A) → is_empty (find_many p xs) ≡ true → delete_where p xs ≡ xs
  unfolding find_many delete_where
  delete_where-none [] h = refl
  delete_where-none (x ∷ xs) h = elim (Bool-cases (p x)) [
    | inl t ↦ let u = rw t at h in ground arith
    | inr t ↦ rw t (ap (λ ys. x ∷ ys) (delete_where-none xs (rw t at h)))
  ]

  delete_if_any-deletes : (xs : List A) → delete_if_any p xs ≡ delete_where p xs
  delete_if_any-deletes xs = elim (Bool-cases (is_empty (find_many p xs))) [
    | inl e ↦ rw e (sym (delete_where-none xs e))
    | inr e ↦ rw e refl
  ]

abbrev nothing_expired : Environment → Db → Bool
nothing_expired env d =
    is_empty (find_many (is_past env) d.sends)
    && (is_empty (find_many (is_unanswered env) d.auth_requests)
        && is_empty (find_many (is_stale env) d.twofactor_incomplete))

-- Each table after the job is the table less its expired rows, on all branches.
purge_expired-tables :
    (env : Environment) (d : Db)
    → ((run_scheduled_jobs quarter_hourly env d).sends ≡ delete_where (is_past env) d.sends)
      × ((run_scheduled_jobs quarter_hourly env d).auth_requests
          ≡ delete_where (is_unanswered env) d.auth_requests)
      × ((run_scheduled_jobs quarter_hourly env d).twofactor_incomplete
          ≡ delete_where (is_stale env) d.twofactor_incomplete)
unfolding run_scheduled_jobs purge_expired purge_expired_duo_contexts purge_expired_sso_auth
purge_expired-tables env d = elim (Bool-cases (nothing_expired env d)) [
  | inl e ↦
      let (a, bc) = and-true _ _ e in
      let (b, c) = and-true _ _ bc in
      rw e (
        sym (delete_where-none (is_past env) d.sends a),
        sym (delete_where-none (is_unanswered env) d.auth_requests b),
        sym (delete_where-none (is_stale env) d.twofactor_incomplete c),
      )
  | inr e ↦ rw e (
    delete_if_any-deletes (is_past env) d.sends,
    delete_if_any-deletes (is_unanswered env) d.auth_requests,
    delete_if_any-deletes (is_stale env) d.twofactor_incomplete,
  )
]

-- The tests of the job, as bounds on the times.

is_past_iff : (env : Environment) (s : Send) → (is_past env s ≡ false) ↔ (env.now ≤ s.deletion_date)
is_past_iff env s = (λ h. ground arith, λ h. ground arith)

is_stale_iff :
    (env : Environment) (t : TwoFactorIncomplete)
    → (is_stale env t ≡ false) ↔ (env.now ≤ t.login_time + 86400000)
is_stale_iff env t = (λ h. ground arith, λ h. ground arith)

is_unanswered_iff :
    (env : Environment) (ar : AuthRequest)
    → (is_unanswered env ar ≡ false)
      ↔ ((env.now ≤ ar.creation_date + 900000) ⊎ (ar.approved ≢ none))
is_unanswered_iff env ar = elim (Option-cases ar.approved) [
  | inl e ↦
      rw e (λ h. inl (ground arith), λ h. elim h [ inl k ↦ ground arith | inr k ↦ absurd (k refl) ])
  | inr (b, e) ↦ rw e (λ h. inr λ k. cc, λ h. ground arith)
]

-- A row is kept exactly if it was there and within its time.
module _ {ℓ} {A : Type ℓ} (p : A → Bool) (P : A → Type 0)
    (iff : (x : A) → (p x ≡ false) ↔ P x) where
  pub kept_iff : (xs : List A) (y : A) → Memᴰ y (delete_where p xs) ↔ (Memᴰ y xs × P y)
  kept_iff xs y = (
    (λ m. let (n, e) = mem-delete_where p xs m in (n, (iff y).0 e)),
    λ (n, h). mem-delete_where_kept p xs ((iff y).1 h) n,
  )

-- The job of every quarter of an hour, over all tables at once: after it a Send is there exactly if it
-- was there and its deletion date has not passed, an auth request exactly if it was there and is at most
-- 15 minutes old or answered, and an incomplete login exactly if it was there and is at most a day old.
-- That the job stops early when it finds nothing changes nothing of that.
pub purged_iff :
    (env : Environment) (d : Db) (s : Send) (ar : AuthRequest) (t : TwoFactorIncomplete)
    → (Memᴰ s (run_scheduled_jobs quarter_hourly env d).sends
        ↔ (Memᴰ s d.sends × (env.now ≤ s.deletion_date)))
      × (Memᴰ ar (run_scheduled_jobs quarter_hourly env d).auth_requests ↔ (
          Memᴰ ar d.auth_requests × ((env.now ≤ ar.creation_date + 900000) ⊎ (ar.approved ≢ none))))
      × (Memᴰ t (run_scheduled_jobs quarter_hourly env d).twofactor_incomplete
          ↔ (Memᴰ t d.twofactor_incomplete × (env.now ≤ t.login_time + 86400000)))
purged_iff env d s ar t =
    let (a, b, c) = purge_expired-tables env d in
    rw (a, b, c)
      (
        kept_iff (is_past env) _ (is_past_iff env) d.sends s,
        kept_iff (is_unanswered env) _ (is_unanswered_iff env) d.auth_requests ar,
        kept_iff (is_stale env) _ (is_stale_iff env) d.twofactor_incomplete t,
      )
