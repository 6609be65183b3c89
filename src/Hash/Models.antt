-- ===== src/Hash/Models.antt =====
-- A table of kernel/hash.c as a finite map, and what one slot that is written does to the map.
use domin_os.Base.{
  ℕ, ◌*◌, Bool, true, false, Option, none, some, ◌≡◌, refl, sym, ap, subst, ◌∙◌, ◌≢◌, ◌≤◌, ◌<◌, ◌⊎◌,
  inl, inr, arith, ◌==◌, if◌then◌else◌, Bool-cases,
}
use domin_os.Hash.{Slot, deleted, active, HashMap, size_of, value_or, put_slot}
use domin_os.Hash.Table.{IsTable, Binds, Unbound}
use domin_os.Hash.Fill.{changed, slot_here, slot_there}
use domin_os.Hash.Fit.{key_of}
use domin_os.Hash.Update.{IsUpdated}

-- The map of keys to values that the table stands for.
pub record Models (map : HashMap) (f : ℕ → Option ℕ) : Type 0 where
  pub bound : (q v : ℕ) → f q ≡ some v → Binds map q v
  pub unbound : (q : ℕ) → f q ≡ none → Unbound map q

-- A table between two calls: at least 8 slots, a third of them empty, and the map it stands for.
pub record IsMap (map : HashMap) (f : ℕ → Option ℕ) : Type 0 where
  pub table : IsTable map
  pub loose : 3 * map.fill < 2 * size_of map
  pub large : 8 ≤ size_of map
  pub models : Models map f

-- The map with every key that `cmp` finds equal to `key` changed.
abbrev pub update : (ℕ → ℕ → Bool) → ℕ → Option ℕ → (ℕ → Option ℕ) → ℕ → Option ℕ
update cmp key o f q = if cmp key q then o else f q

Option-cases : (o : Option ℕ) → (o ≡ none) ⊎ ((v : ℕ) × (o ≡ some v))
Option-cases none = inl refl
Option-cases (some v) = inr (v, refl)

abbrev pub value_at : Option ℕ → ℕ → ℕ
value_at none d = d
value_at (some v) d = v

module _ (map : HashMap) (w : IsTable map) (f : ℕ → Option ℕ) (model : Models map f) where
  -- The table binds a key to one value.
  pub found_value :
      (key r k v h : ℕ)
      → r < size_of map
      → map.table r ≡ active k v h
      → map.cmp k key ≡ true
      → f key ≡ some v
  found_value key r k v h l e same = elim (Option-cases (f key)) [
    | inl n ↦ absurd (ground (arith, model.unbound key n r k v h l e, same))
    | inr (v', s) ↦
        let (j, k', h', l', e', same') = model.bound key v' s in
        let i =
          w.unique r j k v h k' v' h' l l' e e'
            (w.keying.cmp_trans k key k' same (w.keying.cmp_symm k' key same')) in
        let slots : active k v h ≡ active k' v' h' = sym e ∙ ap map.table i ∙ e' in
        s ∙ ap (λ s. some (value_or s 0)) (sym slots)
  ]

  pub found_none : (key : ℕ) → Unbound map key → f key ≡ none
  found_none key u = elim (Option-cases (f key)) [
    | inl n ↦ n
    | inr (v, s) ↦
        let (j, k, h, l, e, same) = model.bound key v s in
        absurd (ground (arith, u j k v h l e, same))
  ]

  -- One slot is written: it held the key or nothing, and no other slot holds it.
  module _ (key r c n : ℕ) (s : Slot) (l : r < size_of map)
      (here : (k v h : ℕ) → map.table r ≡ active k v h → map.cmp k key ≡ true)
      (other : (j k v h : ℕ)
        → j < size_of map
        → j ≢ r
        → map.table j ≡ active k v h
        → map.cmp k key ≡ false) where
    abbrev after : HashMap
    after = changed r s n c map

    kept_binding : (q v : ℕ) → map.cmp key q ≡ false → Binds map q v → Binds after q v
    unfolding put_slot
    kept_binding q v differ (j, k, h, b, e, same) = elim (Bool-cases (j == r)) [
      | inl i ↦
          let i' : j ≡ r = ground arith in
          let same' = here k v h (ap map.table (sym i') ∙ e) in
          absurd (
            ground (arith, differ, w.keying.cmp_trans key k q (w.keying.cmp_symm k key same') same))
      | inr i ↦ (j, k, h, b, slot_there map w r s n c j (ground arith) ∙ e, same)
    ]

    -- No slot but the one that is written can hold a key.
    only_here :
        (q j k v h : ℕ)
        → (map.cmp key q ≡ true) ⊎ Unbound map q
        → j < size_of map
        → j ≢ r
        → after.table j ≡ active k v h
        → map.cmp k q ≡ false
    only_here q j k v h from b i a = elim (Bool-cases (map.cmp k q)) [
      | inr d ↦ d
      | inl d ↦
          let a' : map.table j ≡ active k v h = sym (slot_there map w r s n c j i) ∙ a in
          elim from [
            | inl same ↦ absurd (
                ground (
                  arith,
                  other j k v h b i a',
                  w.keying.cmp_trans k q key d (w.keying.cmp_symm key q same),
                ))
            | inr u ↦ absurd (ground (arith, u j k v h b a', d))
          ]
    ]

    -- A key that is changed, or one that was unbound, is not in the other slots.
    origin :
        (q : ℕ) (o : Option ℕ)
        → update map.cmp key o f q ≡ none
        → (map.cmp key q ≡ true) ⊎ Unbound map q
    origin q o e = elim (Bool-cases (map.cmp key q)) [
      | inl y ↦ inl y
      | inr y ↦ inr (model.unbound q (rw y at e))
    ]

    pub Models-set :
        (k value h : ℕ)
        → s ≡ active k value h
        → map.cmp k key ≡ true
        → Models after (update map.cmp key (some value) f)
    unfolding put_slot
    Models-set k value h written mine = record {
      bound = λ q v e. elim (Bool-cases (map.cmp key q)) [
        | inl y ↦
            let same : value ≡ v = ap (λ o. value_at o 0) (rw y at e) in
            (
              r,
              k,
              h,
              l,
              slot_here map w r s n c ∙ written ∙ ap (λ x. active k x h) same,
              w.keying.cmp_trans k key q mine y,
            )
        | inr y ↦ kept_binding q v y (model.bound q v (rw y at e))
      ];
      unbound = λ q e j k' v' h' b a. elim (Bool-cases (map.cmp key q)) [
        | inl y ↦ absurd (ground (arith, (rw y at e)))
        | inr y ↦ elim (Bool-cases (j == r)) [
          | inr i ↦ only_here q j k' v' h' (origin q (some value) e) b (ground arith) a
          | inl i ↦ elim (Bool-cases (map.cmp k' q)) [
            | inr d ↦ d
            | inl d ↦
                let i' : j ≡ r = ground arith in
                let slots =
                  sym written ∙ sym (slot_here map w r s n c) ∙ ap after.table (sym i') ∙ a in
                let d' = subst (λ x. map.cmp x q ≡ true) (sym (ap key_of slots)) d in
                absurd
                  (ground (arith, y, w.keying.cmp_trans key k q (w.keying.cmp_symm k key mine) d'))
          ]
        ]
      ];
    }

    pub Models-del : s ≡ deleted → Models after (update map.cmp key none f)
    unfolding put_slot
    Models-del written = record {
      bound = λ q v e. elim (Bool-cases (map.cmp key q)) [
        | inl y ↦ absurd (ground (arith, (rw y at e)))
        | inr y ↦ kept_binding q v y (model.bound q v (rw y at e))
      ];
      unbound = λ q e j k' v' h' b a. elim (Bool-cases (j == r)) [
        | inr i ↦ only_here q j k' v' h' (origin q none e) b (ground arith) a
        | inl i ↦
            let i' : j ≡ r = ground arith in
            let slots = sym written ∙ sym (slot_here map w r s n c) ∙ ap after.table (sym i') ∙ a in
            cc
      ];
    }

-- The table that `hash_update` leaves stands for the same map.
pub IsUpdated-Models :
    (map map' : HashMap) (f : ℕ → Option ℕ) → IsUpdated map map' → Models map f → Models map' f
IsUpdated-Models map map' f u model = record {
  bound = λ q v e.
      let (i, k, h, b, a, same) = model.bound q v e in
      let (j, b', a') = u.kept i k v h b a in
      (j, k, h, b', a', subst (λ c. c k q ≡ true) (sym u.same_cmp) same);
  unbound = λ q e j k v h b a.
      let (i, b', a') = u.only j k v h b a in
      subst (λ c. c k q ≡ false) (sym u.same_cmp) (model.unbound q e i k v h b' a');
}
