-- ===== src/Hash/Cycle.antt =====
-- The probe step `5 * i + 1` of kernel/hash.c, over a table whose size is a power of two.
use domin_os.Base.{
  ℕ, zero, suc, ◌+◌, ◌-◌, ◌*◌, ◌/◌, ◌%◌, ◌≡◌, refl, sym, ap, subst, ◌∙◌, ◌≤◌, ◌<◌, ◌^◌, ◌⊎◌, inl,
  inr, arith, ltb, ◌==◌, Bool-cases,
}

-- The sizes of the table.
unfoldable pub two_to : ℕ → ℕ
two_to zero = 1
two_to (suc k) = two_to k + two_to k

-- `n` steps, before any wrap.
unfoldable pub stride : ℕ → ℕ → ℕ
stride zero x = x
stride (suc n) x = stride n (5 * x + 1)

pub stride-add : (m n x : ℕ) → stride (m + n) x ≡ stride n (stride m x)
unfolding stride
stride-add zero n x = let e : 0 + n ≡ n = omega arith in rw e refl
stride-add (suc m) n x =
    let e : suc m + n ≡ suc (m + n) = omega arith in rw e (stride-add m n (5 * x + 1))

pub two_to_pos : (k : ℕ) → 0 < two_to k
unfolding two_to
two_to_pos zero = omega arith
two_to_pos (suc k) = omega (arith, two_to_pos k)

-- A whole round of `two_to k` steps adds an odd multiple of `two_to k`.
stride-round :
    (k : ℕ) → (w : ℕ) × ((x : ℕ) → stride (two_to k) x ≡ x + two_to k * (2 * w + 1) * (4 * x + 1))
unfolding two_to stride
stride-round zero = (0, λ x. omega arith)
stride-round (suc k) =
    let (w, r) = stride-round k in
    let d = two_to k in
    let s = d * (2 * w + 1) in
    (
      2 * w * s + w + s,
      λ x.
          let y = x + s * (4 * x + 1) in stride-add d d x ∙ ap (stride d) (r x) ∙ r y ∙ omega arith,
    )

odd_or_even : (q : ℕ) → ((r : ℕ) × (q ≡ r + r)) ⊎ ((r : ℕ) × (q ≡ r + r + 1))
odd_or_even q = elim (Bool-cases (q % 2 == 0)) [
  | inl e ↦ inl (q / 2, ground arith)
  | inr e ↦ inr (q / 2, ground arith)
]

-- Up to multiples of the size, the steps from any start come to every slot, within one round.
pub stride-hits :
    (k x t : ℕ)
    → t < two_to k
    → (n : ℕ) × (n < two_to k) × (q : ℕ) × (stride n x ≡ t + q * two_to k)
unfolding two_to
stride-hits zero x t h = (0, omega arith, x, unfold stride in omega arith)
stride-hits (suc k) x t h = elim (Bool-cases (ltb t (two_to k))) [
  | inl low ↦ let (n, b, q, e) = stride-hits k x t (ground arith) in finish t n b q e (inl refl)
  | inr high ↦
      let (n, b, q, e) = stride-hits k x (t - two_to k) (ground arith) in
      finish (t - two_to k) n b q e (inr (ground arith))
]
  where
    finish :
        (t' n : ℕ)
        → n < two_to k
        → (q : ℕ) → stride n x ≡ t' + q * two_to k
        → (t ≡ t') ⊎ (t ≡ t' + two_to k)
        → (m : ℕ) × (m < two_to k + two_to k)
          × (p : ℕ) × (stride m x ≡ t + p * (two_to k + two_to k))
    finish t' n b q e c =
        let (w, r) = stride-round k in
        let d = two_to k in
        let far = stride-add n d x ∙ r (stride n x) in
        elim (odd_or_even q) [
          | inl (s, even) ↦ elim c [
            | inl same ↦ (n, omega arith, s, rw (same, e, even) (omega arith))
            | inr up ↦ (
              n + d,
              omega arith,
              s + w + 2 * stride n x * (2 * w + 1),
              rw (far) (rw (up) (rw (e) (rw (even) (omega arith)))),
            )
          ]
          | inr (s, odd) ↦ elim c [
            | inl same ↦ (
              n + d,
              omega arith,
              s + 1 + w + 2 * stride n x * (2 * w + 1),
              rw far (rw (same) (rw e (rw odd (omega arith)))),
            )
            | inr up ↦ (n, omega arith, s, rw (up, e, odd) (omega arith))
          ]
        ]

two_to-add : (a b : ℕ) → two_to (a + b) ≡ two_to a * two_to b
unfolding two_to
two_to-add zero b = let e : 0 + b ≡ b = omega arith in rw e (omega arith)
two_to-add (suc a) b =
    let e : suc a + b ≡ suc (a + b) = omega arith in rw (e, two_to-add a b) (omega arith)

two_to-lt : (a b : ℕ) → two_to a < two_to b → a < b
unfolding two_to
two_to-lt a zero h = absurd (omega (arith, two_to_pos a))
two_to-lt zero (suc b) h = omega arith
two_to-lt (suc a) (suc b) h = omega (arith, two_to-lt a b (omega arith))

-- The largest table that can be doubled.
pub two_to-small : (a : ℕ) → two_to a < 2 ^ 29 → a < 29
unfolding two_to
two_to-small a h =
    let nine : two_to 9 ≡ 512 = refl in
    let ten : two_to 10 ≡ 1024 = refl in
    let twenty : two_to 20 ≡ 1048576 = two_to-add 10 10 ∙ ap (λ x. x * x) ten in
    let all = two_to-add 20 9 ∙ ap (λ x. x * two_to 9) twenty ∙ ap (λ x. 1048576 * x) nine in
    two_to-lt a 29 (subst (λ x. two_to a < x) (sym all) h)

pub two_to-half :
    (n log : ℕ) → n ≡ two_to log → 8 < n → (k : ℕ) × (n ≡ two_to k + two_to k) × (suc k ≡ log)
unfolding two_to
two_to-half n zero e h = absurd (omega arith)
two_to-half n (suc k) e h = (k, e, refl)

pub two_to-large : (k : ℕ) → 4 < two_to k → 8 ≤ two_to k
unfolding two_to
two_to-large zero h = absurd (omega arith)
two_to-large (suc zero) h = absurd (omega arith)
two_to-large (suc (suc zero)) h = absurd (omega arith)
two_to-large (suc (suc (suc k))) h = omega (arith, two_to_pos k)

pub eight : two_to 3 ≡ 8
unfolding two_to
eight = refl
