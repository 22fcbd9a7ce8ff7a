-- ===== src/OrgMembers/Moves.antt =====
-- What a step may do to the table of members: the relation that every handler of api/org-members.ts
-- keeps to, and the four ways in which a single write keeps to it.
use vaultur.Prelude.{
  ℕ, ◌<◌, String, Bool, true, false, ◌≡◌, ◌≢◌, refl, sym, ap, subst, ◌∙◌, ◌⊎◌, inl, inr, ◌==◌,
  nat_instance, string_instance, arith, eq_iff, List, [], ◌∷◌, Memᴰ, Bool-cases, and-true,
}
use vaultur.Prelude.Int.{int_instance}
use vaultur.Prelude.Table.{
  update_where, delete_where, mem-update_where, mem-update_where_kept, mem-update_where_hit,
  mem-delete_where, mem-delete_where_kept,
}
use vaultur.Shared.MembershipType
use vaultur.Db.{Membership}
use vaultur.Db.Keys.{
  UniqueBy, same_of_key, update_where-UniqueBy, delete_where-UniqueBy, cons-UniqueBy, has_key,
}
use vaultur.OrgMembers.Common.{is_confirmed_owner, count_where}

abbrev pub Unique : List Membership → Type 0
Unique = UniqueBy λ m. m.uuid

-- The organization has a confirmed owner.
abbrev pub HasOwner : String → List Membership → Type 0
HasOwner org rows = (m : Membership) × Memᴰ m rows × (is_confirmed_owner org m ≡ true)

-- Under a user of whom `authority` holds where they act as an owner, on one organization: one row to a
-- uuid stays so; no organization loses its last confirmed owner; rows of other organizations stay as
-- they are; and a row of the type Owner was one before, or the user has the authority to make it one.
pub record Moves (authority : Type 0) (org : String) (before after : List Membership) : Type 0 where
  pub unique : Unique before → Unique after
  pub owned : (o : String) → Unique before → HasOwner o before → HasOwner o after
  pub local : Unique before → (y : Membership) → Memᴰ y after → Memᴰ y before ⊎ (y.org_uuid ≡ org)
  pub others : Unique before → (y : Membership) → Memᴰ y before → Memᴰ y after ⊎ (y.org_uuid ≡ org)
  pub owners :
      Unique before
      → (y : Membership) → Memᴰ y after
      → y.atype ≡ MembershipType.owner
      → authority
        ⊎ ((x : Membership) × Memᴰ x before
            × (x.uuid ≡ y.uuid)
            × (x.org_uuid ≡ y.org_uuid)
            × (x.atype ≡ MembershipType.owner))

module _ (authority : Type 0) (org : String) where
  pub Moves-refl : (rows : List Membership) → Moves authority org rows rows
  Moves-refl rows = record {
    unique = λ u. u;
    owned = λ o u h. h;
    local = λ u y m. inl m;
    others = λ u y m. inl m;
    owners = λ u y m t. inr (y, m, refl, refl, t);
  }

  pub Moves-trans :
      (a b c : List Membership)
      → Moves authority org a b
      → Moves authority org b c
      → Moves authority org a c
  Moves-trans a b c f g = record {
    unique = λ u. g.unique (f.unique u);
    owned = λ o u h. g.owned o (f.unique u) (f.owned o u h);
    local = λ u y m. elim (g.local (f.unique u) y m) [ inl n ↦ f.local u y n | inr e ↦ inr e ];
    others = λ u y m. elim (f.others u y m) [ inl n ↦ g.others (f.unique u) y n | inr e ↦ inr e ];
    owners = λ u y m t. elim (g.owners (f.unique u) y m t) [
      | inl w ↦ inl w
      | inr (x, n, k, o, s) ↦ elim (f.owners u x n s) [
        | inl w ↦ inl w
        | inr (z, l, k', o', s') ↦ inr (z, l, k' ∙ k, o' ∙ o, s')
      ]
    ];
  }

count_where-positive :
    {A : Type 0} (p : A → Bool) (xs : List A) (n : ℕ)
    → n < count_where p xs
    → (x : A) × Memᴰ x xs × (p x ≡ true)
unfolding count_where
count_where-positive p [] n h = absurd (omega arith)
count_where-positive p (x ∷ xs) n h = elim (Bool-cases (p x)) [
  | inl t ↦ (x, Memᴰ.head refl, t)
  | inr t ↦
      let (y, m, q) = count_where-positive p xs n (let k = rw t at h in omega (arith, k)) in
      (y, Memᴰ.tail m, q)
]

-- A second row that is counted, beside a given one.
count_where-another :
    (p : Membership → Bool) (xs : List Membership) (x : Membership)
    → Unique xs
    → Memᴰ x xs
    → 1 < count_where p xs
    → (y : Membership) × Memᴰ y xs × (p y ≡ true) × (y.uuid ≢ x.uuid)
unfolding count_where
count_where-another p [] x u m h = elim m [ ]
count_where-another p (z ∷ xs) x u (Memᴰ.head e) h =
    let (y, n, t) = count_where-positive p xs 0 (ground arith) in
    (y, Memᴰ.tail n, t, λ k. u.0 y n (k ∙ ap (λ (r : Membership). r.uuid) e))
count_where-another p (z ∷ xs) x u (Memᴰ.tail m) h = elim (Bool-cases (p z)) [
  | inl t ↦ (z, Memᴰ.head refl, t, λ k. u.0 x m (sym k))
  | inr t ↦
      let (y, n, q, k) = count_where-another p xs x u.1 m (let l = rw t at h in omega (arith, l)) in
      (y, Memᴰ.tail n, q, k)
]

-- The row may be changed or taken away without leaving its organization to nobody.
abbrev pub Spared : List Membership → Membership → Type 0
Spared rows x =
    (is_confirmed_owner x.org_uuid x ≡ false)
    ⊎ (1 < count_where (is_confirmed_owner x.org_uuid) rows)

-- Another confirmed owner, for whichever organization.
other_owner :
    (rows : List Membership) (x : Membership) (o : String)
    → Unique rows
    → Memᴰ x rows
    → Spared rows x
    → HasOwner o rows
    → (y : Membership) × Memᴰ y rows
      × (is_confirmed_owner o y ≡ true)
      × ((y.uuid == x.uuid) ≡ false)
other_owner rows x o u m spared (y, n, t) = elim (Bool-cases (y.uuid == x.uuid)) [
  | inr k ↦ (y, n, t, k)
  | inl k ↦
      let same : y ≡ x = same_of_key (λ r. r.uuid) rows u n m ((eq_iff y.uuid x.uuid).0 k) in
      let org : x.org_uuid ≡ o =
        subst (λ (r : Membership). r.org_uuid ≡ o) same
          ((eq_iff y.org_uuid o).0 (and-true _ _ t).0) in
      let owner : is_confirmed_owner o x ≡ true =
        subst (λ (r : Membership). is_confirmed_owner o r ≡ true) same t in
      elim (subst
        (λ w. (is_confirmed_owner w x ≡ false) ⊎ (1 < count_where (is_confirmed_owner w) rows)) org
        spared) [
          | inl f ↦ absurd (ground arith)
          | inr f ↦
              let (z, l, q, d) = count_where-another (is_confirmed_owner o) rows x u m f in
              (
                z,
                l,
                q,
                elim (Bool-cases (z.uuid == x.uuid)) [
                  | inl e ↦ absurd (d ((eq_iff z.uuid x.uuid).0 e))
                  | inr e ↦ e
                ],
              )
        ]
]

module _ (authority : Type 0) (org : String) (rows : List Membership) (x : Membership)
    (stored : Memᴰ x rows) (here : x.org_uuid ≡ org) where
  -- The row of a uuid is the loaded one.
  loaded : (y : Membership) → Unique rows → Memᴰ y rows → (y.uuid == x.uuid) ≡ true → y ≡ x
  loaded y u m k = same_of_key (λ r. r.uuid) rows u m stored ((eq_iff y.uuid x.uuid).0 k)

  stayed :
      (f : Membership → Membership)
      → Unique rows
      → (o : String) → is_confirmed_owner x.org_uuid (f x) ≡ true
      → HasOwner o rows
      → HasOwner o (update_where (λ r. r.uuid == x.uuid) f rows)
  stayed f u o stays (y, n, t) = elim (Bool-cases (y.uuid == x.uuid)) [
    | inr k ↦ (y, mem-update_where_kept (λ r. r.uuid == x.uuid) f rows k n, t)
    | inl k ↦
        let same : y ≡ x = loaded y u n k in
        let at : y.org_uuid ≡ o = (eq_iff y.org_uuid o).0 (and-true _ _ t).0 in
        (
          f x,
          mem-update_where_hit (λ r. r.uuid == x.uuid) f rows ((eq_iff x.uuid x.uuid).1 refl)
              stored,
          subst (λ w. is_confirmed_owner w (f x) ≡ true)
              (sym (ap (λ (r : Membership). r.org_uuid) same) ∙ at) stays,
        )
  ]

  -- A change of one row, which keeps its uuid and its organization, and makes it an owner only with
  -- authority, and spares the organization unless it stays a confirmed owner.
  pub update-Moves :
      (f : Membership → Membership)
      → ((r : Membership) → ((f r).uuid ≡ r.uuid) × ((f r).org_uuid ≡ r.org_uuid))
      → ((f x).atype ≡ MembershipType.owner → authority ⊎ (x.atype ≡ MembershipType.owner))
      → (is_confirmed_owner x.org_uuid (f x) ≡ true) ⊎ Spared rows x
      → Moves authority org rows (update_where (λ r. r.uuid == x.uuid) f rows)
  update-Moves f keeps promotes spares = record {
    unique = update_where-UniqueBy (λ r. r.uuid) _ f rows (λ r. (keeps r).0);
    owned = λ o u h. elim spares [
      | inl stays ↦ stayed f u o stays h
      | inr s ↦
          let (y, n, t, k) = other_owner rows x o u stored s h in
          (y, mem-update_where_kept (λ r. r.uuid == x.uuid) f rows k n, t)
    ];
    local = λ u y m.
        let (z, n, e) = mem-update_where (λ r. r.uuid == x.uuid) f rows m in
        elim e [
          | inl (_, s) ↦ inl (subst (λ r. Memᴰ r rows) (sym s) n)
          | inr (k, s) ↦ inr (
              ap (λ (r : Membership). r.org_uuid) s
              ∙ (keeps z).1
              ∙ ap (λ (r : Membership). r.org_uuid) (loaded z u n k)
              ∙ here)
        ];
    others = λ u y m. elim (Bool-cases (y.uuid == x.uuid)) [
      | inl k ↦ inr (ap (λ (r : Membership). r.org_uuid) (loaded y u m k) ∙ here)
      | inr k ↦ inl (mem-update_where_kept (λ r. r.uuid == x.uuid) f rows k m)
    ];
    owners = λ u y m t.
        let (z, n, e) = mem-update_where (λ r. r.uuid == x.uuid) f rows m in
        elim e [
          | inl (_, s) ↦ inr (y, subst (λ r. Memᴰ r rows) (sym s) n, refl, refl, t)
          | inr (k, s) ↦
              let same : y ≡ f x = s ∙ ap f (loaded z u n k) in
              elim (promotes (sym (ap (λ (r : Membership). r.atype) same) ∙ t)) [
                | inl w ↦ inl w
                | inr w ↦ inr (
                  x,
                  stored,
                  sym (ap (λ (r : Membership). r.uuid) same ∙ (keeps x).0),
                  sym (ap (λ (r : Membership). r.org_uuid) same ∙ (keeps x).1),
                  w,
                )
              ]
        ];
  }

  pub delete-Moves :
      Spared rows x → Moves authority org rows (delete_where (λ r. r.uuid == x.uuid) rows)
  delete-Moves spared = record {
    unique = delete_where-UniqueBy (λ r. r.uuid) _ rows;
    owned = λ o u h.
        let (y, n, t, k) = other_owner rows x o u stored spared h in
        (y, mem-delete_where_kept (λ r. r.uuid == x.uuid) rows k n, t);
    local = λ u y m. inl (mem-delete_where _ rows m).0;
    others = λ u y m. elim (Bool-cases (y.uuid == x.uuid)) [
      | inl k ↦ inr (ap (λ (r : Membership). r.org_uuid) (loaded y u m k) ∙ here)
      | inr k ↦ inl (mem-delete_where_kept (λ r. r.uuid == x.uuid) rows k m)
    ];
    owners = λ u y m t. inr (y, (mem-delete_where _ rows m).0, refl, refl, t);
  }

-- A new row in front.
pub insert-Moves :
    (authority : Type 0) (org : String) (rows : List Membership) (x : Membership)
    → has_key (λ r. r.uuid) x.uuid rows ≡ false
    → x.org_uuid ≡ org
    → (x.atype ≡ MembershipType.owner → authority)
    → Moves authority org rows (x ∷ rows)
insert-Moves authority org rows x fresh here allowed = record {
  unique = cons-UniqueBy (λ r. r.uuid) x rows fresh;
  owned = λ o u (y, n, t). (y, Memᴰ.tail n, t);
  local = λ u y m. local_row y m;
  others = λ u y m. inl (Memᴰ.tail m);
  owners = λ u y m t. owner_row y m t;
}
  where
    local_row : (y : Membership) → Memᴰ y (x ∷ rows) → Memᴰ y rows ⊎ (y.org_uuid ≡ org)
    local_row y (Memᴰ.head e) = inr (ap (λ (r : Membership). r.org_uuid) e ∙ here)
    local_row y (Memᴰ.tail n) = inl n

    owner_row :
        (y : Membership)
        → Memᴰ y (x ∷ rows)
        → y.atype ≡ MembershipType.owner
        → authority
          ⊎ ((z : Membership) × Memᴰ z rows
              × (z.uuid ≡ y.uuid)
              × (z.org_uuid ≡ y.org_uuid)
              × (z.atype ≡ MembershipType.owner))
    owner_row y (Memᴰ.head e) t = inl (allowed (sym (ap (λ (r : Membership). r.atype) e) ∙ t))
    owner_row y (Memᴰ.tail n) t = inr (y, n, refl, refl, t)
