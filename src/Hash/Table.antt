-- ===== src/Hash/Table.antt =====
-- The invariant of the table of kernel/hash.c, and what `hash_lookup` finds in it.
use native.Mathlib.Nat.{mod-lt}
use domin_os.Base.{
  ℕ, ◌+◌, ◌%◌, Bool, true, false, none, some, ◌≡◌, refl, sym, ap, subst, ◌∙◌, ◌≤◌, ◌<◌, ◌⊎◌, inl,
  inr, arith, ltb, ◌==◌, Bool-cases,
}
use domin_os.Word.{word}
use domin_os.Hash.{
  Slot, empty, deleted, active, HashMap, size_of, slot_index, matches, is_active, hash_lookup,
}
use domin_os.Hash.Cycle.{two_to}
use domin_os.Hash.Count.{is_filled, count_slots, count_slots-other}
use domin_os.Hash.Order.{index_at, index_at-hits}
use domin_os.Hash.Search.{Slot-cases, stops, Probed, lookup_loop-Probed}

-- What the functions of a table must be: `cmp` an equivalence, which `hfunc` respects, and hashes
-- that fit in a word.
pub record IsKeying (hfunc : ℕ → ℕ) (cmp : ℕ → ℕ → Bool) : Type 0 where
  pub cmp_refl : (a : ℕ) → cmp a a ≡ true
  pub cmp_symm : (a b : ℕ) → cmp a b ≡ true → cmp b a ≡ true
  pub cmp_trans : (a b c : ℕ) → cmp a b ≡ true → cmp b c ≡ true → cmp a c ≡ true
  pub hash_same : (a b : ℕ) → cmp a b ≡ true → hfunc a ≡ hfunc b
  pub hash_word : (a : ℕ) → hfunc a < word

-- The slot of the `n`th step of a search for `key`.
abbrev pub path : HashMap → ℕ → ℕ → ℕ
path map key n = slot_index map (index_at n (slot_index map (map.hfunc key)) (map.hfunc key))

-- `r` is on the way of a search for `key`, before any slot that is empty.
abbrev pub OnPath : HashMap → ℕ → ℕ → Type 0
OnPath map key r =
    (n : ℕ) × (path map key n ≡ r)
    × ((m : ℕ) → m < n → is_filled (map.table (path map key m)) ≡ true)

pub record IsTable (map : HashMap) : Type 0 where
  pub keying : IsKeying map.hfunc map.cmp
  pub log : ℕ
  pub sized : size_of map ≡ two_to log
  pub small : log ≤ 29
  pub fill_eq : map.fill ≡ count_slots is_filled (size_of map) map.table
  pub count_eq : map.count ≡ count_slots is_active (size_of map) map.table
  pub room : map.fill < size_of map
  pub hashed : (j k v h : ℕ) → j < size_of map → map.table j ≡ active k v h → h ≡ map.hfunc k
  pub placed : (j k v h : ℕ) → j < size_of map → map.table j ≡ active k v h → OnPath map k j
  pub unique :
      (i j k v h k' v' h' : ℕ)
      → i < size_of map
      → j < size_of map
      → map.table i ≡ active k v h
      → map.table j ≡ active k' v' h'
      → map.cmp k k' ≡ true
      → i ≡ j

-- The table has the key with the value; the table has no such key.
abbrev pub Binds : HashMap → ℕ → ℕ → Type 0
Binds map key value =
    (j : ℕ) × (k : ℕ) × (h : ℕ) × (j < size_of map)
    × (map.table j ≡ active k value h)
    × (map.cmp k key ≡ true)

abbrev pub Unbound : HashMap → ℕ → Type 0
Unbound map key =
    (j k v h : ℕ) → j < size_of map → map.table j ≡ active k v h → map.cmp k key ≡ false

-- The slot that a search for `key` gives.
abbrev pub Looked : HashMap → ℕ → ℕ → Type 0
Looked map key r =
    ((k : ℕ) × (v : ℕ) × (h : ℕ) × (map.table r ≡ active k v h) × (map.cmp k key ≡ true))
    ⊎ ((is_active (map.table r) ≡ false) × Unbound map key × OnPath map key r)

slot_index-lt : (map : HashMap) (i : ℕ) → slot_index map i < size_of map
slot_index-lt map i = mod-lt i (omega arith)

module _ (map : HashMap) (w : IsTable map) (key : ℕ) where
  abbrev hash : ℕ
  hash = map.hfunc key

  -- The test of the loop is the comparison of the keys.
  matches-cmp : (k h : ℕ) → h ≡ map.hfunc k → matches map key hash k h ≡ map.cmp k key
  matches-cmp k h e = elim (Bool-cases (k == key)) [
    | inl s ↦
        let s' : k ≡ key = ground arith in rw s (sym (w.keying.cmp_refl k) ∙ ap (map.cmp k) s')
    | inr s ↦ rw s (elim (Bool-cases (map.cmp k key)) [
      | inl c ↦
          let same : (h == hash) ≡ true = ground (arith, w.keying.hash_same k key c) in
          rw (same, c) refl
      | inr c ↦ rw c (ground arith)
    ])
  ]

  stops-filled : (s : Slot) → stops map key hash s ≡ false → is_filled s ≡ true
  stops-filled empty e = cc
  stops-filled deleted e = refl
  stops-filled (active k v h) e = refl

  stops-empty : (s : Slot) → is_filled s ≡ false → stops map key hash s ≡ true
  stops-empty empty e = refl
  stops-empty deleted e = cc
  stops-empty (active k v h) e = cc

  found_key :
      (r : ℕ)
      → r < size_of map
      → is_active (map.table r) ≡ true
      → stops map key hash (map.table r) ≡ true
      → Looked map key r
  found_key r l a s = elim (Slot-cases (map.table r)) [
    | inl e ↦ absurd (ground (arith, e))
    | inr (inl e) ↦ absurd (ground (arith, e))
    | inr (inr (k, v, h, e)) ↦
        inl (k, v, h, e, sym (matches-cmp k h (w.hashed r k v h l e)) ∙ (rw e at s))
  ]

  -- An empty slot on the way shows that there is no such key.
  no_key :
      (n : ℕ)
      → map.table (path map key n) ≡ empty
      → ((m : ℕ) → m < n → stops map key hash (map.table (path map key m)) ≡ false)
      → Unbound map key
  no_key n e before j k v h l a = elim (Bool-cases (map.cmp k key)) [
    | inr c ↦ c
    | inl c ↦
        let (m, at, filled) = w.placed j k v h l a in
        let at' =
          ap (λ x. slot_index map (index_at m (slot_index map x) x))
            (sym (w.keying.hash_same k key c))
          ∙ at in
        let filled' : (x : ℕ) → x < m → is_filled (map.table (path map key x)) ≡ true = λ x b.
          ap (λ y. is_filled (map.table (slot_index map (index_at x (slot_index map y) y))))
            (sym (w.keying.hash_same k key c))
          ∙ filled x b in
        let here : map.table (path map key m) ≡ active k v h = ap map.table at' ∙ a in
        elim (Bool-cases (ltb m n)) [
          | inl lt ↦ absurd (
              ground
                (arith, before m (ground arith), here, matches-cmp k h (w.hashed j k v h l a), c))
          | inr ge ↦ elim (Bool-cases (n == m)) [
            | inl s ↦
                let s' : n ≡ m = ground arith in
                absurd (ground (arith, sym (ap (λ x. map.table (path map key x)) s') ∙ e, here))
            | inr s ↦ absurd (ground (arith, e, filled' n (ground arith)))
          ]
        ]
  ]

  Probed-Looked :
      (r : ℕ)
      → Probed map key hash (slot_index map hash) hash none r
      → (r < size_of map) × Looked map key r
  Probed-Looked r q = elim q.outcome [
    | inl (a, s) ↦
        let b = subst (λ x. x < size_of map) (sym s) (slot_index-lt map _) in
        let a' = subst (λ x. is_active (map.table x) ≡ true) (sym s) a in
        let stopped = subst (λ x. stops map key hash (map.table x) ≡ true) (sym s) q.stopped in
        (b, found_key r b a' stopped)
    | inr (a, free) ↦ elim free [
      | inl x ↦ cc
      | inr (x, k, c, d, g) ↦ (
        subst (λ x. x < size_of map) (sym d) (slot_index-lt map _),
        inr (
          g,
          no_key q.steps a q.passed,
          (k, sym d, λ i h. stops-filled _ (q.passed i (omega arith))),
        ),
      )
    ]
  ]

  -- Some slot is empty, and the search comes to it.
  stop_ahead :
      (n : ℕ) × (n < size_of map + 7) × (stops map key hash (map.table (path map key n)) ≡ true)
  stop_ahead =
      let (j, b, e) =
        count_slots-other is_filled (size_of map) map.table
          (subst (λ d. d < size_of map) w.fill_eq w.room) in
      let (n, m, at) =
        index_at-hits w.log (slot_index map hash) hash j (omega (arith, w.small))
          (w.keying.hash_word key) (subst (λ d. j < d) w.sized b) in
      let there : path map key n ≡ j =
        subst (λ d. index_at n (slot_index map hash) hash % d ≡ j) (sym w.sized) at in
      (
        n,
        subst (λ d. n < d + 7) (sym w.sized) m,
        ap (λ x. stops map key hash (map.table x)) there ∙ stops-empty (map.table j) e,
      )

  -- In a table with the invariant, which has an empty slot, a search with fuel for the slots
  -- and seven ends: at the slot of a key that compares equal, or, if there is none, at a free
  -- slot from which the key will be found.
  pub hash_lookup-Looked :
      (fuel : ℕ)
      → size_of map + 7 ≤ fuel
      → (r : ℕ) × (hash_lookup fuel map key hash ≡ some r) × (r < size_of map) × Looked map key r
  unfolding hash_lookup
  hash_lookup-Looked fuel l =
      let (n, m, stop) = stop_ahead in
      let (r, f, q) =
        lookup_loop-Probed map key hash fuel n (slot_index map hash) hash none stop (omega arith) in
      let z = Probed-Looked r q in (r, f, z.0, z.1)
