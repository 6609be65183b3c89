-- ===== src/Hash/Copy.antt =====
-- `hash_copy` of kernel/hash.c, from an old table to a new one.
use domin_os.Base.{
  ℕ, zero, suc, ◌+◌, true, false, some, ◌≡◌, refl, sym, ap, subst, ◌∙◌, ◌≢◌, ◌≤◌, ◌<◌, ◌⊎◌, inl,
  inr, arith, ◌==◌, Bool-cases,
}
use domin_os.Hash.{active, HashMap, size_of, is_active, put_slot, copy_slot, hash_copy}
use domin_os.Hash.Count.{is_filled, count_slots, count_slots_mono}
use domin_os.Hash.Search.{Slot-cases}
use domin_os.Hash.Table.{IsTable, OnPath, Unbound, hash_lookup-Looked}
use domin_os.Hash.Fill.{IsFit, changed, changed-IsTable, slot_here, slot_there}
use domin_os.Hash.Fit.{new-IsFit}

-- The new table holds the keys of the first `n` slots of the old one.
pub record HasCopied (old : HashMap) (n : ℕ) (m : HashMap) : Type 0 where
  pub table : IsTable m
  pub same_hfunc : m.hfunc ≡ old.hfunc
  pub same_cmp : m.cmp ≡ old.cmp
  pub filled : m.fill ≡ count_slots is_active n old.table
  pub counted : m.count ≡ count_slots is_active n old.table
  pub clean : (j : ℕ) → j < size_of m → is_filled (m.table j) ≡ is_active (m.table j)
  pub kept :
      (i k v h : ℕ)
      → i < n
      → old.table i ≡ active k v h
      → (j : ℕ) × (j < size_of m) × (m.table j ≡ active k v h)
  pub only :
      (j k v h : ℕ)
      → j < size_of m
      → m.table j ≡ active k v h
      → (i : ℕ) × (i < n) × (old.table i ≡ active k v h)

module _ (old : HashMap) (w : IsTable old) (n : ℕ) (l : n < size_of old) where
  -- A slot that is not active is passed over.
  HasCopied-skip :
      (m : HashMap) → HasCopied old n m → is_active (old.table n) ≡ false → HasCopied old (suc n) m
  unfolding count_slots
  HasCopied-skip m c a = record {
    table = c.table;
    same_hfunc = c.same_hfunc;
    same_cmp = c.same_cmp;
    filled = rw a (omega (arith, c.filled));
    counted = rw a (omega (arith, c.counted));
    clean = c.clean;
    kept = λ i k v h b e. elim (Bool-cases (i == n)) [
      | inl s ↦
          let s' : i ≡ n = ground arith in absurd (ground (arith, a, ap old.table (sym s') ∙ e))
      | inr s ↦ c.kept i k v h (ground arith) e
    ];
    only = λ j k v h b e. let (i, b', e') = c.only j k v h b e in (i, omega arith, e');
  }

  -- A key of the old table that is to come is not in the new one.
  HasCopied-Unbound :
      (m : HashMap) (k v h : ℕ) → HasCopied old n m → old.table n ≡ active k v h → Unbound m k
  HasCopied-Unbound m k v h c a j k' v' h' b e = elim (Bool-cases (m.cmp k' k)) [
    | inr d ↦ d
    | inl d ↦
        let (i, b', e') = c.only j k' v' h' b e in
        let d' : old.cmp k' k ≡ true = subst (λ f. f k' k ≡ true) c.same_cmp d in
        absurd (omega (arith, w.unique i n k' v' h' k v h (omega arith) l e' a d'))
  ]

  module _ (m : HashMap) (k v h : ℕ) (c : HasCopied old n m) (a : old.table n ≡ active k v h)
      (r : ℕ) (b : r < size_of m) (free : is_active (m.table r) ≡ false) (on : OnPath m k r)
      (fits : count_slots is_active (suc n) old.table < size_of m) where
    abbrev after : HashMap
    after = changed r (active k v h) (m.fill + 1) (m.count + 1) m

    hash_eq : h ≡ m.hfunc k
    hash_eq = w.hashed n k v h l a ∙ sym (ap (λ f. f k) c.same_hfunc)

    after-IsTable : IsTable after
    unfolding count_slots
    after-IsTable =
        let unfilled : is_filled (m.table r) ≡ false = c.clean r b ∙ free in
        changed-IsTable m c.table r (active k v h) (m.fill + 1) (m.count + 1) refl b
          (rw unfilled (omega arith)) (rw free (omega arith)) (ground (arith, c.filled, fits, a))
          (subst (λ x. IsFit m r (active k v x)) (sym hash_eq)
            (new-IsFit m c.table r k v (HasCopied-Unbound m k v h c a) on))

    -- The slot that is read after the change is the new one or an old one.
    after-slot :
        (j : ℕ)
        → ((j ≡ r) × (after.table j ≡ active k v h)) ⊎ ((j ≢ r) × (after.table j ≡ m.table j))
    after-slot j = elim (Bool-cases (j == r)) [
      | inl s ↦
          let s' : j ≡ r = ground arith in
          inl (
            s',
            ap after.table s' ∙ slot_here m c.table r (active k v h) (m.fill + 1) (m.count + 1),
          )
      | inr s ↦
          let s' : j ≢ r = ground arith in
          inr (s', slot_there m c.table r (active k v h) (m.fill + 1) (m.count + 1) j s')
    ]

    after-clean : (j : ℕ) → j < size_of m → is_filled (after.table j) ≡ is_active (after.table j)
    after-clean j l' = elim (after-slot j) [
      | inl (s, e) ↦ rw e refl
      | inr (s, e) ↦ rw e (c.clean j l')
    ]

    after-kept :
        (i k' v' h' : ℕ)
        → i < suc n
        → old.table i ≡ active k' v' h'
        → (j : ℕ) × (j < size_of m) × (after.table j ≡ active k' v' h')
    after-kept i k' v' h' l' e = elim (Bool-cases (i == n)) [
      | inl s ↦
          let s' : i ≡ n = ground arith in
          (
            r,
            b,
            slot_here m c.table r (active k v h) (m.fill + 1) (m.count + 1)
                ∙ sym a
                ∙ ap old.table (sym s')
                ∙ e,
          )
      | inr s ↦
          let (j, lj, ej) = c.kept i k' v' h' (ground arith) e in
          elim (after-slot j) [
            | inl (s', e') ↦ absurd (ground (arith, free, sym (ap m.table s') ∙ ej))
            | inr (s', e') ↦ (j, lj, e' ∙ ej)
          ]
    ]

    after-only :
        (j k' v' h' : ℕ)
        → j < size_of m
        → after.table j ≡ active k' v' h'
        → (i : ℕ) × (i < suc n) × (old.table i ≡ active k' v' h')
    after-only j k' v' h' lj e = elim (after-slot j) [
      | inl (s, e') ↦ (n, omega arith, a ∙ sym e' ∙ e)
      | inr (s, e') ↦ let (i, li, ei) = c.only j k' v' h' lj (sym e' ∙ e) in (i, omega arith, ei)
    ]

    after-HasCopied : HasCopied old (suc n) after
    unfolding count_slots put_slot
    after-HasCopied = record {
      table = after-IsTable;
      same_hfunc = c.same_hfunc;
      same_cmp = c.same_cmp;
      filled = rw a (omega (arith, c.filled));
      counted = rw a (omega (arith, c.counted));
      clean = after-clean;
      kept = after-kept;
      only = after-only;
    }

  -- One step of the loop.
  copy_slot-HasCopied :
      (fuel : ℕ) (m : HashMap)
      → HasCopied old n m
      → size_of m + 7 ≤ fuel
      → count_slots is_active (suc n) old.table < size_of m
      → (m' : HashMap) × (copy_slot fuel (old.table n) m ≡ some m')
        × (m'.mask ≡ m.mask)
        × HasCopied old (suc n) m'
  unfolding copy_slot put_slot
  copy_slot-HasCopied fuel m c f fits = elim (Slot-cases (old.table n)) [
    | inl e ↦ (m, rw e refl, refl, HasCopied-skip m c (rw e refl))
    | inr (inl e) ↦ (m, rw e refl, refl, HasCopied-skip m c (rw e refl))
    | inr (inr (k, v, h, e)) ↦
        let (r, found, b, looked) = hash_lookup-Looked m c.table k fuel f in
        elim looked [
          | inl (k', v', h', e', same) ↦
              absurd (ground (arith, HasCopied-Unbound m k v h c e r k' v' h' b e', same))
          | inr (free, u, on) ↦ (
            changed r (active k v h) (m.fill + 1) (m.count + 1) m,
            rw (e, found) refl,
            refl,
            after-HasCopied m k v h c e r b free on fits,
          )
        ]
  ]

pub hash_copy-HasCopied :
    (fuel : ℕ) (old : HashMap)
    → IsTable old
    → (n i : ℕ) (m : HashMap) → i + n ≡ size_of old
    → HasCopied old i m
    → size_of m + 7 ≤ fuel
    → old.count < size_of m
    → (m' : HashMap) × (hash_copy fuel n i old.table m ≡ some m')
      × (m'.mask ≡ m.mask)
      × HasCopied old (size_of old) m'
unfolding hash_copy
hash_copy-HasCopied fuel old w zero i m e c f fits =
    (m, refl, refl, subst (λ x. HasCopied old x m) (omega (arith, e)) c)
hash_copy-HasCopied fuel old w (suc n) i m e c f fits =
    let (m1, r1, s1, c1) = copy_slot-HasCopied old w i (omega arith) fuel m c f (
      omega (
        arith,
        w.count_eq,
        count_slots_mono is_active (suc i) (size_of old) old.table (omega arith),
      )) in
    let (m2, r2, s2, c2) =
      hash_copy-HasCopied fuel old w n (suc i) m1 (omega arith) c1 (omega (arith, s1))
        (omega (arith, s1)) in
    (m2, rw r1 r2, s2 ∙ s1, c2)
