-- ===== src/Jobs/Trash.antt =====
-- jobs/scheduled.ts: which ciphers and attachments the weekly job leaves.
use vaultur.Prelude.{
  ℕ, ◌+◌, ◌*◌, ◌≤◌, String, string_instance, eq_iff, Bool, true, false, ◌≡◌, ◌≢◌, refl, ◌∙◌, ◌↔◌,
  ◌⊎◌, inl, inr, Bool-cases, arith, List, [], ◌∷◌, Memᴰ, sym, ap, ◌==◌, nat_instance, ◌&&◌, Option,
  none, some, Option-cases,
}
use vaultur.Prelude.Table.{any, All, find_many, delete_where}
use vaultur.Db.{Db, Cipher, Attachment}
use vaultur.Jobs.Scheduled.{
  weekly, Environment, in_old_trash, purge_trash, purge_trash_after, delete_ciphers, is_empty,
  run_scheduled_jobs,
}
use vaultur.Jobs.Purge.{delete_where-none, kept_iff}

purge_trash_after-ciphers :
    (days : ℕ) (env : Environment) (d : Db)
    → 1 ≤ days
    → (purge_trash_after days env d).ciphers ≡ delete_where (in_old_trash env days) d.ciphers
unfolding purge_trash_after delete_ciphers
purge_trash_after-ciphers days env d on =
    let off : (days == 0) ≡ false = ground arith in
    rw off (elim (Bool-cases (is_empty (find_many (in_old_trash env days) d.ciphers))) [
      | inl e ↦ rw e (sym (delete_where-none (in_old_trash env days) d.ciphers e))
      | inr e ↦ rw e refl
    ])

purge_trash-ciphers :
    (days : ℕ) (env : Environment) (d : Db)
    → env.trash_auto_delete_days ≡ some days
    → 1 ≤ days
    → (run_scheduled_jobs weekly env d).ciphers ≡ delete_where (in_old_trash env days) d.ciphers
unfolding run_scheduled_jobs purge_trash
purge_trash-ciphers days env d set on =
    ap
      (λ (o : Option ℕ).
        let after : Db = elim o [ none ↦ d | some n ↦ purge_trash_after n env d ] in after.ciphers)
      set
    ∙ purge_trash_after-ciphers days env d on

-- A cipher that the weekly job keeps: it is not in the trash, or not for longer than the days.
abbrev pub IsRecent : ℕ → ℕ → Cipher → Type 0
IsRecent now days x =
    (x.deleted_at ≡ none) ⊎ ((t : ℕ) × (x.deleted_at ≡ some t) × (now ≤ t + days * 86400000))

in_old_trash-IsRecent :
    (env : Environment) (days : ℕ) (x : Cipher)
    → (in_old_trash env days x ≡ false) ↔ IsRecent env.now days x
in_old_trash-IsRecent env days x = elim (Option-cases x.deleted_at) [
  | inl e ↦ (λ h. inl e, λ h. rw (e, in_old_trash))
  | inr (t, e) ↦
      rw (e, in_old_trash)
        (
          λ h. inr (t, refl, ground arith),
          λ h. elim h [ inl k ↦ absurd (cc) | inr (u, k, b) ↦ ground (arith, k, b) ],
        )
]

any_iff-All :
    (p : Cipher → Bool) (P : Cipher → Type 0)
    → ((x : Cipher) → (p x ≡ false) ↔ P x)
    → (xs : List Cipher) → (any p xs ≡ false) ↔ All P xs
unfolding any
any_iff-All p P iff [] = (λ h. tt, λ h. refl)
any_iff-All p P iff (x ∷ xs) = (
  (λ h. ((iff x).0 (ground arith), (any_iff-All p P iff xs).0 (ground arith))),
  λ (h, hs).
      let first = (iff x).1 h in let rest = (any_iff-All p P iff xs).1 hs in rw (first, rest) refl,
)

-- Nothing refers to a deleted row where no row is deleted.
any-none :
    (f p : Cipher → Bool) (xs : List Cipher)
    → is_empty (find_many p xs) ≡ true
    → any (λ x. f x && p x) xs ≡ false
unfolding any find_many
any-none f p [] h = refl
any-none f p (x ∷ xs) h = elim (Bool-cases (p x)) [
  | inl t ↦ let u = rw t at h in absurd (cc)
  | inr t ↦ let rest = any-none f p xs (rw t at h) in rw rest (ground (arith, t))
]

delete_where-all :
    {A : Type 0} (p : A → Bool) (xs : List A) → ((x : A) → p x ≡ false) → delete_where p xs ≡ xs
unfolding delete_where
delete_where-all p [] h = refl
delete_where-all p (x ∷ xs) h = rw (h x) (ap (λ ys. x ∷ ys) (delete_where-all p xs h))

purge_trash_after-attachments :
    (days : ℕ) (env : Environment) (d : Db)
    → 1 ≤ days
    → (purge_trash_after days env d).attachments
      ≡ delete_where
          (λ a. any (λ x. x.uuid == a.cipher_uuid && in_old_trash env days x) d.ciphers)
          d.attachments
unfolding purge_trash_after delete_ciphers
purge_trash_after-attachments days env d on =
    let off : (days == 0) ≡ false = ground arith in
    rw off (elim (Bool-cases (is_empty (find_many (in_old_trash env days) d.ciphers))) [
      | inl e ↦ rw e (
          sym (
            delete_where-all _ d.attachments
              λ a. any-none (λ x. x.uuid == a.cipher_uuid) (in_old_trash env days) d.ciphers e))
      | inr e ↦ rw e refl
    ])

-- When a cipher does not take the rows of a uuid along.
is_gone_iff :
    (env : Environment) (days : ℕ) (id : String) (x : Cipher)
    → ((x.uuid == id && in_old_trash env days x) ≡ false)
      ↔ ((x.uuid ≢ id) ⊎ IsRecent env.now days x)
is_gone_iff env days id x = elim (Bool-cases (x.uuid == id)) [
  | inl k ↦
      let same = (eq_iff x.uuid id).0 k in
      rw k (
        (λ h. inr ((in_old_trash-IsRecent env days x).0 h)),
        λ h. elim h [ inl n ↦ absurd (n same) | inr r ↦ (in_old_trash-IsRecent env days x).1 r ],
      )
  | inr k ↦
      rw k
        ((λ h. inl λ e. let t = (eq_iff x.uuid id).1 e in absurd (ground (arith, t, k))), λ h. refl)
]

purge_trash-attachments :
    (days : ℕ) (env : Environment) (d : Db)
    → env.trash_auto_delete_days ≡ some days
    → (run_scheduled_jobs weekly env d).attachments ≡ (purge_trash_after days env d).attachments
unfolding run_scheduled_jobs purge_trash
purge_trash-attachments days env d set =
    ap
      (λ (o : Option ℕ).
        let after : Db = elim o [ none ↦ d | some n ↦ purge_trash_after n env d ] in
        after.attachments)
      set

-- The weekly job, if a positive number of days is set: a cipher is there after it exactly if it was there
-- and its deletion, if it has one, is at most that many days old; and an attachment is there exactly if
-- it was there and each cipher that has the uuid it refers to is not deleted by that rule.
pub trash_iff :
    (env : Environment) (days : ℕ) (d : Db) (x : Cipher) (a : Attachment)
    → env.trash_auto_delete_days ≡ some days
    → 1 ≤ days
    → (Memᴰ x (run_scheduled_jobs weekly env d).ciphers
        ↔ (Memᴰ x d.ciphers × IsRecent env.now days x))
      × (Memᴰ a (run_scheduled_jobs weekly env d).attachments ↔ (
          Memᴰ a d.attachments
          × All (λ y. (y.uuid ≢ a.cipher_uuid) ⊎ IsRecent env.now days y) d.ciphers))
trash_iff env days d x a set on = (
  rw (purge_trash-ciphers days env d set on)
      (kept_iff (in_old_trash env days) _ (in_old_trash-IsRecent env days) d.ciphers x),
  rw (purge_trash-attachments days env d set, purge_trash_after-attachments days env d on)
      (kept_iff _ _
        (λ (b : Attachment). any_iff-All _ _ (is_gone_iff env days b.cipher_uuid) d.ciphers)
        d.attachments a),
)
