-- ===== src/Hash/Count.antt =====
-- How many slots of a table are of a kind.
use domin_os.Base.{
  ℕ, zero, suc, ◌+◌, Bool, true, false, ◌≡◌, refl, ◌≤◌, ◌<◌, inl, inr, arith, ◌==◌, if◌then◌else◌,
  Bool-cases,
}
use domin_os.Hash.{Slot, empty, deleted, active, is_active}

abbrev pub to_nat : Bool → ℕ
to_nat true = 1
to_nat false = 0

abbrev pub is_filled : Slot → Bool
is_filled empty = false
is_filled _ = true

module _ (p : Slot → Bool) where
  unfoldable pub count_slots : ℕ → (ℕ → Slot) → ℕ
  count_slots zero table = 0
  count_slots (suc n) table = to_nat (p (table n)) + count_slots n table

  pub count_slots-le : (n : ℕ) (table : ℕ → Slot) → count_slots n table ≤ n
  unfolding count_slots
  count_slots-le zero table = omega arith
  count_slots-le (suc n) table = ground (arith, count_slots-le n table)

  -- Two tables that are equal below `n` have the same count.
  pub count_slots-ext :
      (n : ℕ) (table table' : ℕ → Slot)
      → ((i : ℕ) → i < n → p (table' i) ≡ p (table i))
      → count_slots n table' ≡ count_slots n table
  unfolding count_slots
  count_slots-ext zero table table' e = refl
  count_slots-ext (suc n) table table' e =
      rw (e n (omega arith), count_slots-ext n table table' (λ i h. e i (omega arith))) refl

  -- One slot is changed.
  pub count_slots-put :
      (n i : ℕ) (s : Slot) (table : ℕ → Slot)
      → i < n
      → count_slots n (λ j. if j == i then s else table j) + to_nat (p (table i))
        ≡ count_slots n table + to_nat (p s)
  unfolding count_slots
  count_slots-put zero i s table h = ground arith
  count_slots-put (suc n) i s table h = elim (Bool-cases (n == i)) [
    | inl e ↦
        let same =
          count_slots-ext n table (λ j. if j == i then s else table j) (λ j l. ground arith) in
        let there : n ≡ i = ground arith in rw (e, same, there) (omega arith)
    | inr e ↦ rw e (omega (arith, count_slots-put n i s table (ground arith)))
  ]

  pub count_slots-zero :
      (n : ℕ) (table : ℕ → Slot) → ((i : ℕ) → p (table i) ≡ false) → count_slots n table ≡ 0
  unfolding count_slots
  count_slots-zero zero table h = refl
  count_slots-zero (suc n) table h = rw (h n, count_slots-zero n table h) refl

  -- A slot that is not of the kind, where not all are.
  pub count_slots-other :
      (n : ℕ) (table : ℕ → Slot)
      → count_slots n table < n
      → (i : ℕ) × (i < n) × (p (table i) ≡ false)
  unfolding count_slots
  count_slots-other zero table h = ground arith
  count_slots-other (suc n) table h = elim (Bool-cases (p (table n))) [
    | inr e ↦ (n, omega arith, e)
    | inl e ↦ let (i, l, f) = count_slots-other n table (ground (arith, e)) in (i, omega arith, f)
  ]

  pub count_slots_mono :
      (n m : ℕ) (table : ℕ → Slot) → n ≤ m → count_slots n table ≤ count_slots m table
  unfolding count_slots
  count_slots_mono n zero table h = let e : n ≡ 0 = omega arith in rw e (omega arith)
  count_slots_mono n (suc m) table h = elim (Bool-cases (n == suc m)) [
    | inl s ↦ let e : n ≡ suc m = ground arith in rw e (omega arith)
    | inr s ↦ ground (arith, count_slots_mono n m table (ground arith))
  ]

pub count_slots-sub :
    (n : ℕ) (table : ℕ → Slot) → count_slots is_active n table ≤ count_slots is_filled n table
unfolding count_slots
count_slots-sub zero table = omega arith
count_slots-sub (suc n) table =
    omega (arith, count_slots-sub n table, is_active-is_filled (table n))
  where
    is_active-is_filled : (s : Slot) → to_nat (is_active s) ≤ to_nat (is_filled s)
    is_active-is_filled empty = omega arith
    is_active-is_filled deleted = omega arith
    is_active-is_filled (active k v h) = omega arith
