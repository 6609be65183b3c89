-- ===== src/Hash/Search.antt =====
-- What the loop of `hash_lookup` in kernel/hash.c stops at.
use domin_os.Base.{
  ℕ, zero, suc, Bool, true, false, Option, none, some, ◌≡◌, refl, ◌≤◌, ◌<◌, ◌⊎◌, inl, inr, arith,
  Bool-cases,
}
use domin_os.Hash.{
  Slot, empty, deleted, active, HashMap, slot_index, next_index, next_perturb, matches, first_free,
  is_active, lookup_loop,
}
use domin_os.Hash.Order.{index_at}

pub Slot-cases :
    (s : Slot) → (s ≡ empty) ⊎ ((s ≡ deleted) ⊎ ((k : ℕ) × (v : ℕ) × (h : ℕ) × (s ≡ active k v h)))
Slot-cases empty = inl refl
Slot-cases deleted = inr (inl refl)
Slot-cases (active k v h) = inr (inr (k, v, h, refl))

module _ (map : HashMap) (key hash : ℕ) where
  -- The loop ends at a slot that is empty or holds the key.
  abbrev pub stops : Slot → Bool
  stops empty = true
  stops deleted = false
  stops (active k v h) = matches map key hash k h

  -- The slot of the `n`th step.
  abbrev pub slot_at : ℕ → ℕ → ℕ → ℕ
  slot_at n i p = slot_index map (index_at n i p)

  -- A slot to write to: one found earlier, or the first on the way that holds nothing.
  abbrev pub IsFree : ℕ → ℕ → ℕ → Option ℕ → ℕ → Type 0
  IsFree steps i p free r =
      (free ≡ some r)
      ⊎ ((free ≡ none)
          × (m : ℕ) × (m ≤ steps)
          × (r ≡ slot_at m i p)
          × (is_active (map.table r) ≡ false))

  pub record Probed (i p : ℕ) (free : Option ℕ) (r : ℕ) : Type 0 where
    pub steps : ℕ
    pub passed : (m : ℕ) → m < steps → stops (map.table (slot_at m i p)) ≡ false
    pub stopped : stops (map.table (slot_at steps i p)) ≡ true
    pub outcome :
        ((is_active (map.table (slot_at steps i p)) ≡ true) × (r ≡ slot_at steps i p))
        ⊎ ((map.table (slot_at steps i p) ≡ empty) × IsFree steps i p free r)

  -- One more step in front.
  Probed-step :
      (i p r : ℕ) (free free' : Option ℕ)
      → stops (map.table (slot_index map i)) ≡ false
      → ((n : ℕ) → IsFree n (next_index i p) (next_perturb p) free' r → IsFree (suc n) i p free r)
      → Probed (next_index i p) (next_perturb p) free' r
      → Probed i p free r
  unfolding index_at
  Probed-step i p r free free' go moves q = record {
    steps = suc q.steps;
    passed = λ m h.
        elim m as (λ m. m < suc q.steps → stops (map.table (slot_at m i p)) ≡ false) [
          | zero ↦ λ h. go
          | suc m ↦ λ h. q.passed m (omega arith)
        ]
          h;
    stopped = q.stopped;
    outcome = elim q.outcome [ inl e ↦ inl e | inr (e, f) ↦ inr (e, moves q.steps f) ];
  }

  keeps_IsFree :
      (i p r : ℕ) (free : Option ℕ) (n : ℕ)
      → IsFree n (next_index i p) (next_perturb p) free r
      → IsFree (suc n) i p free r
  unfolding index_at
  keeps_IsFree i p r free n (inl e) = inl e
  keeps_IsFree i p r free n (inr (e, m, l, f, g)) = inr (e, suc m, omega arith, f, g)

  takes-IsFree :
      (i p r : ℕ) (free : Option ℕ) (n : ℕ)
      → is_active (map.table (slot_index map i)) ≡ false
      → IsFree n (next_index i p) (next_perturb p) (some (first_free free (slot_index map i))) r
      → IsFree (suc n) i p free r
  unfolding index_at
  takes-IsFree i p r (some f) n a (inl e) = inl e
  takes-IsFree i p r none n a (inl e) =
      let same : r ≡ slot_index map i = cc in inr (refl, 0, omega arith, same, rw same a)
  takes-IsFree i p r free n a (inr (e, m, l, f, g)) = cc

  found_empty :
      (i p : ℕ) (free : Option ℕ)
      → map.table (slot_index map i) ≡ empty
      → Probed i p free (first_free free (slot_index map i))
  unfolding index_at
  found_empty i p free e = record {
    steps = 0;
    passed = λ m h. ground arith;
    stopped = rw e refl;
    outcome = inr (e, free_here free);
  }
    where
      free_here : (f : Option ℕ) → IsFree 0 i p f (first_free f (slot_index map i))
      free_here none = inr (refl, 0, omega arith, refl, rw e refl)
      free_here (some f) = inl refl

  found_key :
      (i p : ℕ) (free : Option ℕ) (k v h : ℕ)
      → map.table (slot_index map i) ≡ active k v h
      → matches map key hash k h ≡ true
      → Probed i p free (slot_index map i)
  unfolding index_at
  found_key i p free k v h e y = record {
    steps = 0;
    passed = λ m l. ground arith;
    stopped = rw e y;
    outcome = inl (rw e refl, refl);
  }

  -- Where the first slot is passed, the one to stop at comes a step later.
  one_less :
      (n i p : ℕ) {fuel : ℕ}
      → stops (map.table (slot_at n i p)) ≡ true
      → n < suc fuel
      → stops (map.table (slot_index map i)) ≡ false
      → (m : ℕ) × (stops (map.table (slot_at m (next_index i p) (next_perturb p))) ≡ true)
        × (m < fuel)
  unfolding index_at
  one_less zero i p s l go = cc
  one_less (suc n) i p s l go = (n, s, omega arith)

  -- With a slot to stop at within the fuel, the loop ends.
  pub lookup_loop-Probed :
      (fuel n i p : ℕ) (free : Option ℕ)
      → stops (map.table (slot_at n i p)) ≡ true
      → n < fuel
      → (r : ℕ) × (lookup_loop fuel map key hash i p free ≡ some r) × Probed i p free r
  unfolding lookup_loop index_at
  lookup_loop-Probed zero n i p free s l = ground arith
  lookup_loop-Probed (suc fuel) n i p free s l = elim (Slot-cases (map.table (slot_index map i))) [
    | inl e ↦ (first_free free (slot_index map i), rw (lookup_loop, e) refl, found_empty i p free e)
    | inr (inl e) ↦
        let go : stops (map.table (slot_index map i)) ≡ false = rw e refl in
        let (m, later, near) = one_less n i p s l go in
        let (r, f, q) =
          lookup_loop-Probed fuel m (next_index i p) (next_perturb p)
            (some (first_free free (slot_index map i))) later near in
        (
          r,
          rw (lookup_loop, e) f,
          Probed-step i p r free _ go (λ k. takes-IsFree i p r free k (rw e refl)) q,
        )
    | inr (inr (k, v, h, e)) ↦ elim (Bool-cases (matches map key hash k h)) [
      | inl y ↦ (slot_index map i, rw (lookup_loop, e, y) refl, found_key i p free k v h e y)
      | inr no_match ↦
          let go : stops (map.table (slot_index map i)) ≡ false = rw e no_match in
          let (m, later, near) = one_less n i p s l go in
          let (r, f, q) =
            lookup_loop-Probed fuel m (next_index i p) (next_perturb p) free later near in
          (
            r,
            rw (lookup_loop, e, no_match) f,
            Probed-step i p r free free go (keeps_IsFree i p r free) q,
          )
    ]
  ]
