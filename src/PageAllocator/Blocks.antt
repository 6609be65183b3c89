-- ===== src/PageAllocator/Blocks.antt =====
-- Blocks of kernel/page_allocator.c and their buddies.
use native.Mathlib.Nat.{mul-div_cancel}
use domin_os.Base.{
  ℕ, zero, suc, ◌+◌, ◌-◌, ◌*◌, ◌/◌, ◌%◌, ◌^◌, true, false, ◌==◌, ltb, ◌≡◌, refl, sym, ap, subst,
  ◌∙◌, ◌≤◌, ◌<◌, ◌⊎◌, arith, inl, inr, Bool-cases,
}
use domin_os.PageAllocator.{flip, lower}
use domin_os.PageAllocator.Cover.{inside}

-- The address is a multiple of `2 ^ k`.
abbrev pub IsAligned : ℕ → ℕ → Type 0
IsAligned k b = (m : ℕ) × (b ≡ m * 2 ^ k)

pub power_pos : (k : ℕ) → 0 < 2 ^ k
power_pos zero = omega arith
power_pos (suc k) = omega (arith, power_pos k)

half_cases : (m : ℕ) → ((h : ℕ) × (m ≡ 2 * h)) ⊎ ((h : ℕ) × (m ≡ 2 * h + 1))
half_cases m = elim (Bool-cases (m % 2 == 0)) [
  | inl e ↦ inl (m / 2, ground arith)
  | inr e ↦ inr (m / 2, ground arith)
]

flip_cases :
    (k b : ℕ)
    → IsAligned k b
    → ((h : ℕ) × (b ≡ 2 * h * 2 ^ k) × (flip k b ≡ b + 2 ^ k))
      ⊎ ((h : ℕ) × (b ≡ (2 * h + 1) * 2 ^ k) × (flip k b ≡ b - 2 ^ k))
flip_cases k b (m, e) =
    let d : b / 2 ^ k ≡ m = ap (λ x. x / 2 ^ k) e ∙ mul-div_cancel m (power_pos k) in
    elim (half_cases m) [
      | inl (h, s) ↦
          let z : (m % 2 == 0) ≡ true = ground arith in
          inl (h, e ∙ ap (λ x. x * 2 ^ k) s, rw (d, z) refl)
      | inr (h, s) ↦
          let z : (m % 2 == 0) ≡ false = ground arith in
          inr (h, e ∙ ap (λ x. x * 2 ^ k) s, rw (d, z) refl)
    ]

multiple_double : (m k : ℕ) → m * 2 ^ suc k ≡ 2 * m * 2 ^ k
multiple_double m k =
    let double : 2 ^ suc k ≡ 2 ^ k + 2 ^ k = omega arith in ap (λ x. m * x) double ∙ omega arith

inside_double : (k b q : ℕ) → inside (suc k) b q ≡ inside k b q + inside k (b + 2 ^ k) q
inside_double k b q =
    let double : 2 ^ suc k ≡ 2 ^ k + 2 ^ k = omega arith in rw double (ground (arith, power_pos k))

-- The two halves of a block.
pub split-IsAligned :
    (k b : ℕ)
    → IsAligned (suc k) b
    → (flip k b ≡ b + 2 ^ k)
      × IsAligned k b
      × IsAligned k (flip k b)
      × ((q : ℕ) → inside (suc k) b q ≡ inside k b q + inside k (flip k b) q)
split-IsAligned k b (m, e) =
    let e' : b ≡ 2 * m * 2 ^ k = e ∙ multiple_double m k in
    let d : b / 2 ^ k ≡ 2 * m = ap (λ x. x / 2 ^ k) e' ∙ mul-div_cancel (2 * m) (power_pos k) in
    let z : (2 * m % 2 == 0) ≡ true = ground arith in
    let f : flip k b ≡ b + 2 ^ k = rw (d, z) refl in
    (
      f,
      (2 * m, e'),
      (2 * m + 1, f ∙ omega (arith, e')),
      λ q. inside_double k b q ∙ ap (λ x. inside k b q + inside k x q) (sym f),
    )

-- A block and its buddy are one of the next size.
pub join-IsAligned :
    (k b : ℕ)
    → IsAligned k b
    → IsAligned (suc k) (lower b (flip k b))
      × ((q : ℕ) → inside (suc k) (lower b (flip k b)) q ≡ inside k b q + inside k (flip k b) q)
join-IsAligned k b a = elim (flip_cases k b a) [
  | inl (h, e, f) ↦
      let less : ltb b (b + 2 ^ k) ≡ true = ground (arith, power_pos k) in
      let low : lower b (flip k b) ≡ b = rw (f, less) refl in
      (
        (h, low ∙ e ∙ sym (multiple_double h k)),
        λ q.
            ap (λ x. inside (suc k) x q) low
            ∙ inside_double k b q
            ∙ ap (λ x. inside k b q + inside k x q) (sym f),
      )
  | inr (h, e, f) ↦
      let less : ltb b (b - 2 ^ k) ≡ false = ground arith in
      let low : lower b (flip k b) ≡ b - 2 ^ k = rw (f, less) refl in
      let up : b ≡ b - 2 ^ k + 2 ^ k = omega (arith, e) in
      let down : b - 2 ^ k ≡ 2 * h * 2 ^ k = omega (arith, e) in
      (
        (h, low ∙ down ∙ sym (multiple_double h k)),
        λ q.
            ap (λ x. inside (suc k) x q) low
            ∙ inside_double k (b - 2 ^ k) q
            ∙ ap (λ x. inside k (b - 2 ^ k) q + inside k x q) (sym up)
            ∙ add_swap (inside k (b - 2 ^ k) q) (inside k b q)
            ∙ ap (λ x. inside k b q + inside k x q) (sym f),
      )
]
  where
    add_swap : (x y : ℕ) → x + y ≡ y + x
    add_swap x y = omega arith

-- The buddy of an aligned block is aligned.
pub flip-IsAligned : (k b : ℕ) → IsAligned k b → IsAligned k (flip k b)
flip-IsAligned k b a = elim (flip_cases k b a) [
  | inl (h, e, f) ↦ (2 * h + 1, f ∙ omega (arith, e))
  | inr (h, e, f) ↦ (2 * h, f ∙ omega (arith, e))
]

-- A product that is at most an odd multiple of half the factor.
halves_le : (m h d : ℕ) → m * (2 * d) ≤ (2 * h + 1) * d → 0 < d → m ≤ h
halves_le m h d l p = elim (Bool-cases (ltb h m)) [
  | inr e ↦ ground arith
  | inl e ↦
      let (k, s) : (k : ℕ) × (m ≡ h + 1 + k) = (m - (h + 1), ground arith) in
      absurd (omega (arith, ap (λ x. x * (2 * d)) s, l))
]

power_add : (a b : ℕ) → 2 ^ (a + b) ≡ 2 ^ a * 2 ^ b
power_add zero b = let e : 0 + b ≡ b = omega arith in rw e (omega arith)
power_add (suc a) b =
    let e : suc a + b ≡ suc (a + b) = omega arith in
    let twice : 2 ^ suc a ≡ 2 * 2 ^ a = omega arith in
    rw e (omega (arith, power_add a b, ap (λ x. x * 2 ^ b) twice))

multiple_le : (m h d : ℕ) → m ≤ h → m * d ≤ h * d
multiple_le m h d l = let s : h ≡ m + (h - m) = omega arith in omega (arith, ap (λ x. x * d) s)

-- A region below the upper half of a block is below the block.
region_le :
    (k home h : ℕ) → k < 26 → home * 2 ^ 26 ≤ (2 * h + 1) * 2 ^ k → home * 2 ^ 26 ≤ 2 * h * 2 ^ k
region_le k home h l low =
    let n : 26 ≡ 25 - k + suc k = omega arith in
    let whole : 2 ^ 26 ≡ 2 ^ (25 - k) * (2 * 2 ^ k) =
      ap (λ x. 2 ^ x) n ∙ power_add (25 - k) (suc k) ∙ ap (λ x. 2 ^ (25 - k) * x) (omega arith) in
    let c = 2 ^ (25 - k) in
    let d = 2 ^ k in
    let product : home * 2 ^ 26 ≡ home * c * (2 * d) = ap (λ x. home * x) whole ∙ omega arith in
    let m : home * c ≤ h = halves_le (home * c) h d (omega (arith, product, low)) (power_pos k) in
    omega (arith, product, multiple_le (home * c) h (2 * d) m)

-- The block of the next size is in the same region.
pub lower-bounds :
    (k home b : ℕ)
    → k < 26
    → IsAligned k b
    → home * 2 ^ 26 ≤ b
    → b < (home + 1) * 2 ^ 26
    → (home * 2 ^ 26 ≤ lower b (flip k b)) × (lower b (flip k b) < (home + 1) * 2 ^ 26)
lower-bounds k home b l a low high = elim (flip_cases k b a) [
  | inl (h, e, f) ↦
      let less : ltb b (b + 2 ^ k) ≡ true = ground (arith, power_pos k) in
      let same : lower b (flip k b) ≡ b = rw (f, less) refl in
      (omega (arith, same), omega (arith, same))
  | inr (h, e, f) ↦
      let less : ltb b (b - 2 ^ k) ≡ false = ground arith in
      let same : lower b (flip k b) ≡ b - 2 ^ k = rw (f, less) refl in
      let lowest = region_le k home h l (subst (λ x. home * 2 ^ 26 ≤ x) e low) in
      (omega (arith, same, e, lowest), omega (arith, same))
]
