-- ===== src/Hash/Order.antt =====
-- The order in which `hash_lookup` visits the slots: it comes to every one of them.
use native.Mathlib.Nat.{add-mul-mod_self_right, mod-eq_of_lt}
use domin_os.Base.{ℕ, zero, suc, ◌+◌, ◌-◌, ◌*◌, ◌/◌, ◌%◌, ◌≡◌, refl, sym, ap, ◌∙◌, ◌≤◌, ◌<◌, arith}
use domin_os.Word.{word}
use domin_os.Hash.{next_index, next_perturb}
use domin_os.Hash.Cycle.{two_to, stride, stride-hits}

-- The index after `n` steps.
unfoldable pub index_at : ℕ → ℕ → ℕ → ℕ
index_at zero i p = i
index_at (suc n) i p = index_at n (next_index i p) (next_perturb p)

-- A shift of the start by a multiple shifts the result by one.
stride-shift : (n x c w : ℕ) → (d : ℕ) × (stride n (x + c * w) ≡ stride n x + d * w)
unfolding stride
stride-shift zero x c w = (c, refl)
stride-shift (suc n) x c w =
    let (d, e) = stride-shift n (5 * x + 1) (5 * c) w in
    let same : 5 * (x + c * w) + 1 ≡ 5 * x + 1 + 5 * c * w = omega arith in (d, rw same e)

-- Once `perturb` is used up, the index follows the stride up to the wrap of a word.
index_at-stride : (n i : ℕ) → (u : ℕ) × (stride n i ≡ index_at n i 0 + u * word)
unfolding stride index_at
index_at-stride zero i = (0, omega arith)
index_at-stride (suc n) i =
    let j = next_index i 0 in
    let (u, e) = index_at-stride n j in
    let q = (5 * i + 0 + 1) / word in
    let split : 5 * i + 1 ≡ j + q * word = omega arith in
    let (d, f) = stride-shift n j q word in (u + d, rw split (f ∙ rw e (omega arith)))

two_to-add : (a b : ℕ) → two_to (a + b) ≡ two_to a * two_to b
unfolding two_to
two_to-add zero b = let e : 0 + b ≡ b = omega arith in rw e (omega arith)
two_to-add (suc a) b =
    let e : suc a + b ≡ suc (a + b) = omega arith in rw e (omega (arith, two_to-add a b))

word-two_to : (k : ℕ) → k ≤ 32 → word ≡ two_to (32 - k) * two_to k
unfolding two_to
word-two_to k h =
    let e : 32 ≡ 32 - k + k = omega arith in
    let whole : word ≡ two_to 32 = refl in whole ∙ ap two_to e ∙ two_to-add (32 - k) k

mod_of_multiples : (x t c q d : ℕ) → x + c * d ≡ t + q * d → t < d → x % d ≡ t
mod_of_multiples x t c q d e h =
    sym (add-mul-mod_self_right x c d)
    ∙ ap (λ y. y % d) e
    ∙ add-mul-mod_self_right t q d
    ∙ mod-eq_of_lt h

-- With no perturbation left, a round comes to every slot.
index_at-round :
    (k i t : ℕ) → k ≤ 32 → t < two_to k → (n : ℕ) × (n < two_to k) × (index_at n i 0 % two_to k ≡ t)
index_at-round k i t h l =
    let (n, b, q, e) = stride-hits k i t l in
    let (u, f) = index_at-stride n i in
    let c = u * two_to (32 - k) in
    (
      n,
      b,
      mod_of_multiples (index_at n i 0) t c q (two_to k)
          (omega (arith, f, e, ap (λ (w : ℕ). u * w) (word-two_to k h))) l,
    )

-- Seven steps use up a perturbation of 32 bits, and then one round is enough.
pub index_at-hits :
    (k i p t : ℕ)
    → k ≤ 32
    → p < word
    → t < two_to k
    → (n : ℕ) × (n < two_to k + 7) × (index_at n i p % two_to k ≡ t)
unfolding index_at
index_at-hits k i p t h b l =
    let r = p / 32 / 32 / 32 / 32 / 32 / 32 / 32 in
    let used : r ≡ 0 = omega arith in
    let j = index_at 7 i p in
    let (n, m, e) = index_at-round k j t h l in
    (
      suc (suc (suc (suc (suc (suc (suc n)))))),
      omega arith,
      ap (λ q. index_at n j q % two_to k) used ∙ e,
    )
