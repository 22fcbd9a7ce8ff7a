-- ===== src/Sends/Counting.antt =====
-- The limit on the number of accesses of a Send.
use vaultur.Prelude.{
  holds, ℕ, ◌+◌, String, Bool, true, false, ◌≡◌, sym, ap, subst, ◌∙◌, ◌⊎◌, inl, inr, ◌==◌,
  nat_instance, string_instance, Option, some, arith, eq_iff, List, [], ◌∷◌,
}
use vaultur.Prelude.Table.{
  find_first, update_where, find_first-holds, find_first-update_where, find_first-update_where_ne,
}
use vaultur.Shared.SendType
use vaultur.Web.{Result, ok, err}
use vaultur.Db.{Db, Send}
use vaultur.Context.{Context}
use vaultur.Sends.Guards.{IsAccessible, HasPassword, check_accessible-Guards, check_password-Guards}
use vaultur.Sends.Access.{access, access_file, access_id_to_send_uuid, count_access}

-- A request to one of the two public endpoints that give a Send out.
pub data Request : Type 0 where
  open_text : String → Option String → Request
  open_file : String → String → Option String → Request

-- The Send that a request names.
abbrev pub names : Context → Request → String → Bool
names c (open_text access_id password) id = holds (access_id_to_send_uuid c access_id) id
names c (open_file send_id file_id password) id = send_id == id

abbrev pub succeeded {ℓ} : {A : Type ℓ} → Result A → Bool
succeeded (ok a) = true
succeeded (err n t) = false

-- The state after a request, and whether the Send was given out.
unfoldable pub serve : Context → Request → Db → Db × Bool
serve c (open_text access_id password) d =
    ((access c access_id password d).0, succeeded (access c access_id password d).1)
serve c (open_file send_id file_id password) d = (
  (access_file c send_id file_id password d).0,
  succeeded (access_file c send_id file_id password d).1,
)

abbrev pub counts : Bool → Bool → ℕ
counts true true = 1
counts _ _ = 0

-- How often a history gives the Send out.
unfoldable pub given_out : String → List (Context × Request) → Db → ℕ
given_out id [] d = 0
given_out id ((c, r) ∷ h) d = counts (names c r id) (serve c r d).1 + given_out id h (serve c r d).0

abbrev pub row : String → Db → Option Send
row id d = find_first (λ s. s.uuid == id) d.sends

abbrev pub counted : Send → Db → List Send
counted s d =
    update_where (λ r. r.uuid == s.uuid) (λ r. record r { access_count = s.access_count + 1 })
      d.sends

module _ (c : Context) (password : Option String) (d : Db) (s : Send) where
  -- A request is refused and changes nothing, or it is counted.
  abbrev pub Counted : Db → Bool → Type 0
  Counted e given =
      ((e.sends ≡ d.sends) × (given ≡ false))
      ⊎ (IsAccessible c s × HasPassword c s password × (e.sends ≡ counted s d))

  pub access-Counted :
      (access_id id : String)
      → access_id_to_send_uuid c access_id ≡ some id
      → row id d ≡ some s
      → s.atype ≡ SendType.text
      → Counted (access c access_id password d).0 (succeeded (access c access_id password d).1)
  unfolding access count_access
  access-Counted access_id id a e t = elim (check_accessible-Guards c s d) [
    | inl (n, m, g) ↦ inl (rw (a, e, g, access), rw (a, e, g, access))
    | inr (g, open_now) ↦ elim (check_password-Guards c s password "Invalid password" d) [
      | inl (n, m, p) ↦ inl (rw (a, e, g, p, access), rw (a, e, g, p, access))
      | inr (p, known) ↦ inr (open_now, known, rw (a, e, g, p, access) (ground arith))
    ]
  ]

  pub access_file-Counted :
      (id file_id : String)
      → row id d ≡ some s
      → Counted
          (access_file c id file_id password d).0
          (succeeded (access_file c id file_id password d).1)
  unfolding access_file count_access
  access_file-Counted id file_id e = elim (check_accessible-Guards c s d) [
    | inl (n, m, g) ↦ inl (rw (e, g, access_file), rw (e, g, access_file))
    | inr (g, open_now) ↦ elim (check_password-Guards c s password "Invalid password." d) [
      | inl (n, m, p) ↦ inl (rw (e, g, p, access_file), rw (e, g, p, access_file))
      | inr (p, known) ↦ inr (open_now, known, rw (e, g, p, access_file) (ground arith))
    ]
  ]

  -- A Send of another type may be given out without being counted.
  pub access-writes :
      (access_id id : String)
      → access_id_to_send_uuid c access_id ≡ some id
      → row id d ≡ some s
      → ((access c access_id password d).0.sends ≡ d.sends)
        ⊎ ((access c access_id password d).0.sends ≡ counted s d)
  unfolding access count_access
  access-writes access_id id a e = elim (check_accessible-Guards c s d) [
    | inl (n, m, g) ↦ inl (rw (a, e, g, access))
    | inr (g, _) ↦ elim (check_password-Guards c s password "Invalid password" d) [
      | inl (n, m, p) ↦ inl (rw (a, e, g, p, access))
      | inr (p, _) ↦ rw (a, e, g, p, access) (ground arith)
    ]
  ]

-- The row under a uuid after the count of a Send under another.
pub row-counted_ne :
    (id k : String) (s : Send) (d e : Db)
    → (k == id) ≡ false
    → row k d ≡ some s
    → e.sends ≡ counted s d
    → row id e ≡ row id d
row-counted_ne id k s d e h f w =
    ap (find_first (λ r. r.uuid == id)) w
    ∙ find_first-update_where_ne (λ r. r.uuid == id) (λ r. r.uuid == s.uuid)
        (λ r. record r { access_count = s.access_count + 1 }) d.sends miss miss
  where
    same : s.uuid ≡ k
    same = (eq_iff s.uuid k).0 (find_first-holds _ d.sends f)

    miss : (y : Send) → (y.uuid == s.uuid) ≡ true → (y.uuid == id) ≡ false
    miss y p = rw ((eq_iff y.uuid s.uuid).0 p ∙ same) h

pub row-counted :
    (id : String) (s : Send) (d e : Db)
    → row id d ≡ some s
    → e.sends ≡ counted s d
    → row id e ≡ some (record s { access_count = s.access_count + 1 })
row-counted id s d e f w =
    ap (find_first (λ r. r.uuid == id)) w
    ∙ subst
        (λ k.
          find_first (λ r. r.uuid == id)
            (update_where (λ r. r.uuid == k) (λ r. record r { access_count = s.access_count + 1 })
              d.sends)
          ≡ some (record s { access_count = s.access_count + 1 }))
        (sym ((eq_iff s.uuid id).0 (find_first-holds _ d.sends f)))
        (find_first-update_where (λ r. r.uuid == id)
          (λ r. record r { access_count = s.access_count + 1 }) d.sends (λ y p. p) f)
