-- ===== src/Sends/Limit.antt =====
-- No history of requests gives a text Send out more often than its limit allows.
use vaultur.Prelude.{
  holds, ℕ, ◌+◌, ◌≤◌, ◌<◌, String, Bool, false, ◌≡◌, refl, ap, ◌∙◌, ◌⊎◌, inl, inr, ◌==◌,
  string_instance, Option, none, some, Option-cases, Bool-cases, arith, eq_iff, List, [], ◌∷◌,
}
use vaultur.Prelude.Table.{find_first}
use vaultur.Shared.SendType
use vaultur.Db.{Db, Send}
use vaultur.Context.{Context}
use vaultur.Sends.Access.{access, access_file, access_id_to_send_uuid, is_used_up}
use vaultur.Sends.Counting.{
  Request, open_text, open_file, names, serve, counts, given_out, row, counted, Counted,
  access-Counted, access_file-Counted, access-writes, row-counted_ne, row-counted,
}

-- What one request does to the Send under `id`, and what it counts for.
abbrev Step : String → Send → Db → ℕ → Type 0
Step id s e k =
    ((row id e ≡ some s) × (k ≡ 0))
    ⊎ ((is_used_up s ≡ false)
        × (row id e ≡ some (record s { access_count = s.access_count + 1 }))
        × (k ≤ 1))

counts-le : (a b : Bool) → counts a b ≤ 1
counts-le a b = ground arith

counts-false : (a b : Bool) → (a ≡ false) ⊎ (b ≡ false) → counts a b ≡ 0
counts-false a b h = ground arith

module _ (c : Context) (id : String) (d : Db) (s : Send) (here : row id d ≡ some s) where
  stays :
      (e : Db) (a b : Bool)
      → e.sends ≡ d.sends
      → (a ≡ false) ⊎ (b ≡ false)
      → Step id s e (counts a b)
  stays e a b w f = inl (ap (find_first (λ r. r.uuid == id)) w ∙ here, counts-false a b f)

  Counted-Step :
      (password : Option String) (e : Db) (a b : Bool)
      → Counted c password d s e b
      → Step id s e (counts a b)
  Counted-Step password e a b (inl (w, f)) = stays e a b w (inr f)
  Counted-Step password e a b (inr (open_now, _, w)) =
      inr (open_now.0, row-counted id s d e here w, counts-le a b)

  -- A request that names another Send.
  elsewhere :
      (k : String) (e : Db) (o : Send) (b : Bool)
      → (k == id) ≡ false
      → row k d ≡ some o
      → (e.sends ≡ d.sends) ⊎ (e.sends ≡ counted o d)
      → Step id s e (counts (k == id) b)
  elsewhere k e o b h f (inl w) = stays e (k == id) b w (inl h)
  elsewhere k e o b h f (inr w) =
      inl (row-counted_ne id k o d e h f w ∙ here, counts-false (k == id) b (inl h))

  text_missing :
      (access_id : String) (password : Option String)
      → access_id_to_send_uuid c access_id ≡ none
      → Step id s (serve c (open_text access_id password) d).0 (
          counts
            (names c (open_text access_id password) id)
            (serve c (open_text access_id password) d).1)
  unfolding serve access
  text_missing access_id password a = rw (a, serve, access) (stays d false false refl (inl refl))

  text_absent :
      (access_id k : String) (password : Option String)
      → access_id_to_send_uuid c access_id ≡ some k
      → row k d ≡ none
      → Step id s (serve c (open_text access_id password) d).0 (
          counts
            (names c (open_text access_id password) id)
            (serve c (open_text access_id password) d).1)
  unfolding serve access
  text_absent access_id k password a f =
      rw (a, f, serve, access) (stays d (k == id) false refl (inr refl))

  text-Step :
      (access_id k : String) (password : Option String)
      → access_id_to_send_uuid c access_id ≡ some k
      → s.atype ≡ SendType.text
      → Step id s (serve c (open_text access_id password) d).0 (
          counts
            (names c (open_text access_id password) id)
            (serve c (open_text access_id password) d).1)
  unfolding serve
  text-Step access_id k password a t = elim (Option-cases (row k d)) [
    | inl f ↦ text_absent access_id k password a f
    | inr (o, f) ↦ elim (Bool-cases (k == id)) [
      | inl h ↦
          Counted-Step password (access c access_id password d).0 _ _
            (access-Counted c password d s access_id id (a ∙ ap some ((eq_iff k id).0 h)) here t)
      | inr h ↦
          rw (a, names, holds)
            (elsewhere k (access c access_id password d).0 o _ h f
              (access-writes c password d o access_id k a f))
    ]
  ]

  file_absent :
      (k file_id : String) (password : Option String)
      → row k d ≡ none
      → Step id s
          (serve c (open_file k file_id password) d).0
          (counts (k == id) (serve c (open_file k file_id password) d).1)
  unfolding serve access_file
  file_absent k file_id password f =
      rw (f, serve, access_file) (stays d (k == id) false refl (inr refl))

  file_writes :
      (k file_id : String) (password : Option String) (o : Send) (e : Db) (b : Bool)
      → Counted c password d o e b
      → (e.sends ≡ d.sends) ⊎ (e.sends ≡ counted o d)
  file_writes k file_id password o e b (inl (w, _)) = inl w
  file_writes k file_id password o e b (inr (_, _, w)) = inr w

  file-Step :
      (k file_id : String) (password : Option String)
      → Step id s
          (serve c (open_file k file_id password) d).0
          (counts (k == id) (serve c (open_file k file_id password) d).1)
  unfolding serve
  file-Step k file_id password = elim (Option-cases (row k d)) [
    | inl f ↦ file_absent k file_id password f
    | inr (o, f) ↦ elim (Bool-cases (k == id)) [
      | inl h ↦ Counted-Step password (access_file c k file_id password d).0 _ _ (
          access_file-Counted c password d s k file_id
            (ap (λ j. row j d) ((eq_iff k id).0 h) ∙ here))
      | inr h ↦ elsewhere k (access_file c k file_id password d).0 o _ h f (
          file_writes k file_id password o (access_file c k file_id password d).0 _
            (access_file-Counted c password d o k file_id f))
    ]
  ]

  serve-Step :
      (r : Request)
      → s.atype ≡ SendType.text
      → Step id s (serve c r d).0 (counts (names c r id) (serve c r d).1)
  serve-Step (open_file k file_id password) t = file-Step k file_id password
  serve-Step (open_text access_id password) t =
      elim (Option-cases (access_id_to_send_uuid c access_id)) [
        | inl a ↦ text_missing access_id password a
        | inr (k, a) ↦ text-Step access_id k password a t
      ]

-- Over any history of public requests, a text Send in the table with a limit of n accesses, m of which
-- are used and m not above n, is given out n - m times at most.
pub given_out-bounded :
    (h : List (Context × Request)) (d : Db) (id : String) (s : Send) (n : ℕ)
    → row id d ≡ some s
    → s.atype ≡ SendType.text
    → s.max_access_count ≡ some n
    → s.access_count ≤ n
    → given_out id h d + s.access_count ≤ n
unfolding given_out
given_out-bounded [] d id s n here t m le = omega arith
given_out-bounded ((c, r) ∷ h) d id s n here t m le = elim (serve-Step c id d s here r t) [
  | inl (there, k) ↦ omega (arith, k, given_out-bounded h (serve c r d).0 id s n there t m le)
  | inr (used, there, k) ↦
      let less : s.access_count < n = ground arith in
      omega (
        arith,
        k,
        less,
        given_out-bounded h (serve c r d).0 id (record s { access_count = s.access_count + 1 }) n
            there t m (omega arith),
      )
]
