-- ===== src/Hash/Fill.antt =====
-- The invariant of the table of kernel/hash.c when one slot is written.
use domin_os.Base.{
  ℕ, ◌+◌, true, false, ◌≡◌, sym, ap, subst, ◌∙◌, ◌≢◌, ◌<◌, inl, inr, arith, ◌==◌, Bool-cases,
}
use domin_os.Hash.{Slot, active, HashMap, size_of, is_active, put_slot}
use domin_os.Hash.Count.{is_filled, count_slots-put, to_nat}
use domin_os.Hash.Table.{IsTable, OnPath}

abbrev pub changed : ℕ → Slot → ℕ → ℕ → HashMap → HashMap
changed r s f c map = record (put_slot r s map) { fill = f; count = c }

-- What an active slot that is written must be.
pub record IsFit (map : HashMap) (r : ℕ) (s : Slot) : Type 0 where
  pub hashed : (k v h : ℕ) → s ≡ active k v h → h ≡ map.hfunc k
  pub placed : (k v h : ℕ) → s ≡ active k v h → OnPath map k r
  pub single :
      (k v h : ℕ)
      → s ≡ active k v h
      → (j k' v' h' : ℕ) → j < size_of map
      → j ≢ r
      → map.table j ≡ active k' v' h'
      → map.cmp k k' ≡ false

module _ (map : HashMap) (w : IsTable map) (r : ℕ) (s : Slot) (f c : ℕ) where
  pub slot_here : (changed r s f c map).table r ≡ s
  unfolding put_slot
  slot_here = ground arith

  pub slot_there : (j : ℕ) → j ≢ r → (changed r s f c map).table j ≡ map.table j
  unfolding put_slot
  slot_there j n = ground arith

  module _ (filled : is_filled s ≡ true) (l : r < size_of map)
      (fills : f + to_nat (is_filled (map.table r)) ≡ map.fill + 1)
      (counts : c + to_nat (is_active (map.table r)) ≡ map.count + to_nat (is_active s))
      (room : f < size_of map) (fit : IsFit map r s) where
    stays_filled :
        (j : ℕ) → is_filled (map.table j) ≡ true → is_filled ((changed r s f c map).table j) ≡ true
    unfolding put_slot
    stays_filled j e = ground arith

    pub OnPath-changed : (k j : ℕ) → OnPath map k j → OnPath (changed r s f c map) k j
    unfolding put_slot
    OnPath-changed k j (n, at, before) = (n, at, λ m b. stays_filled _ (before m b))

    pub changed-IsTable : IsTable (changed r s f c map)
    unfolding put_slot
    changed-IsTable = record {
      keying = w.keying;
      log = w.log;
      sized = w.sized;
      small = w.small;
      fill_eq =
          unfold put_slot in
          omega (
            arith,
            count_slots-put is_filled (size_of map) r s map.table l,
            fills,
            w.fill_eq,
            ap to_nat filled,
          );
      count_eq =
          unfold put_slot in
          omega
            (arith, count_slots-put is_active (size_of map) r s map.table l, counts, w.count_eq);
      room = room;
      hashed = λ j k v h b e. elim (Bool-cases (j == r)) [
        | inl i ↦ fit.hashed k v h (written j k v h (ground arith) e)
        | inr i ↦ w.hashed j k v h b (sym (slot_there j (ground arith)) ∙ e)
      ];
      placed = λ j k v h b e. elim (Bool-cases (j == r)) [
        | inl i ↦
            let i' : j ≡ r = ground arith in
            OnPath-changed k j
              (subst (OnPath map k) (sym i') (fit.placed k v h (written j k v h i' e)))
        | inr i ↦ OnPath-changed k j (w.placed j k v h b (sym (slot_there j (ground arith)) ∙ e))
      ];
      unique = λ i j k v h k' v' h' b b' e e' same. elim (Bool-cases (i == r)) [
        | inl x ↦ elim (Bool-cases (j == r)) [
          | inl y ↦ ground arith
          | inr y ↦
              let n : j ≢ r = ground arith in
              absurd (
                ground (
                  arith,
                  fit.single k v h (written i k v h (ground arith) e) j k' v' h' b' n
                      (sym (slot_there j n) ∙ e'),
                  same,
                ))
        ]
        | inr x ↦
            let n : i ≢ r = ground arith in
            elim (Bool-cases (j == r)) [
              | inl y ↦ absurd (
                  ground (
                    arith,
                    fit.single k' v' h' (written j k' v' h' (ground arith) e') i k v h b n
                        (sym (slot_there i n) ∙ e),
                    w.keying.cmp_symm k k' same,
                  ))
              | inr y ↦
                  w.unique i j k v h k' v' h' b b' (sym (slot_there i n) ∙ e)
                    (sym (slot_there j (ground arith)) ∙ e') same
            ]
      ];
    }
      where
        written :
            (j k v h : ℕ) → j ≡ r → (changed r s f c map).table j ≡ active k v h → s ≡ active k v h
        written j k v h i e = sym slot_here ∙ ap (changed r s f c map).table (sym i) ∙ e
