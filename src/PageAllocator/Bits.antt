-- ===== src/PageAllocator/Bits.antt =====
-- `puiss2` of kernel/page_allocator.c rounds a size up to a power of two.
use domin_os.Base.{
  ℕ, zero, suc, ◌+◌, ◌-◌, ◌*◌, ◌/◌, ◌%◌, ◌^◌, false, ◌==◌, ltb, ◌≡◌, refl, sym, subst, ◌∙◌, ◌≤◌,
  ◌<◌, ◌⊎◌, inl, inr, arith, Bool-cases,
}
use domin_os.Word.{word, int_lt, sub32}
use domin_os.PageAllocator.{shift, nb_pages_alloc, map_size, count_bits, puiss2, size_index}
use domin_os.PageAllocator.Blocks.{power_pos}

-- The number of bits of `s`.
count_bits-IsLength :
    (n s p : ℕ)
    → s < 2 ^ n
    → (r : ℕ) × (count_bits n s p ≡ p + r) × (s < 2 ^ r) × (((r ≡ 0) × (s ≡ 0)) ⊎ (2 ^ r ≤ 2 * s))
unfolding count_bits
count_bits-IsLength zero s p l = (0, omega arith, omega arith, inl (refl, omega arith))
count_bits-IsLength (suc n) s p l = elim (Bool-cases (s == 0)) [
  | inl e ↦ let z : s ≡ 0 = ground arith in (0, rw e (omega arith), omega arith, inl (refl, z))
  | inr e ↦
      let (r, c, low, high) = count_bits-IsLength n (s / 2) (p + 1) (omega arith) in
      let positive : 0 < s = ground arith in
      (
        suc r,
        rw e (c ∙ omega arith),
        omega (arith, low),
        inr (elim high [ inl (z, y) ↦ rw z (omega arith) | inr h ↦ omega (arith, h) ]),
      )
]

power_mono : (a b : ℕ) → a ≤ b → 2 ^ a ≤ 2 ^ b
power_mono a zero l = let e : a ≡ 0 = omega arith in rw e (omega arith)
power_mono a (suc b) l = elim (Bool-cases (a == suc b)) [
  | inl e ↦ let e' : a ≡ suc b = ground arith in rw e' (omega arith)
  | inr e ↦ omega (arith, power_mono a b (ground arith), power_pos b)
]

power_lt : (a b : ℕ) → 2 ^ a < 2 ^ b → a < b
power_lt a b l = elim (Bool-cases (ltb a b)) [
  | inl e ↦ ground arith
  | inr e ↦ absurd (omega (arith, power_mono b a (ground arith)))
]

-- For a size from 1 to 2 ^ 30, `puiss2` is the exponent of a power of two that is not below the
-- size and below twice the size.
pub puiss2_lem :
    (size : ℕ) → 0 < size → size ≤ 2 ^ 30 → (size ≤ 2 ^ puiss2 size) × (2 ^ puiss2 size < 2 * size)
unfolding puiss2
puiss2_lem size low high =
    let s : sub32 size 1 ≡ size - 1 = omega arith in
    let (r, c, below, above) = count_bits-IsLength 32 (size - 1) 0 (omega arith) in
    let top : 2 ^ r < 2 * size = elim above [
      | inl (z, y) ↦ rw z (omega arith)
      | inr h ↦ omega arith
    ] in
    let least : size ≤ 2 ^ r = omega arith in
    let plain : int_lt (2 ^ r % word) 0 ≡ false = ground (arith, top) in
    let zero_plus : count_bits 32 (size - 1) 0 ≡ r = c ∙ omega arith in
    rw (s, zero_plus, plain) (least, top)

-- The index of a number of pages: the block holds the pages, and less than twice as many.
pub size_index_lem :
    (nb_pages : ℕ)
    → 0 < nb_pages
    → nb_pages < nb_pages_alloc
    → (size_index nb_pages < map_size)
      × (nb_pages * 4096 ≤ 2 ^ (size_index nb_pages + shift))
      × (2 ^ (size_index nb_pages + shift) < nb_pages * 8192)
size_index_lem n low high =
    let size : n * 2 ^ shift % word ≡ n * 4096 = omega arith in
    let (a, b) = puiss2_lem (n * 4096) (omega arith) (omega arith) in
    let p : 11 < puiss2 (n * 4096) = power_lt 11 (puiss2 (n * 4096)) (omega (arith, a)) in
    let q : puiss2 (n * 4096) < 27 = power_lt (puiss2 (n * 4096)) 27 (omega (arith, b)) in
    let e : size_index n + shift ≡ puiss2 (n * 4096) = rw size (omega (arith, p)) in
    (
      rw size (omega (arith, p, q)),
      subst (λ x. n * 4096 ≤ 2 ^ x) (sym e) a,
      subst (λ x. 2 ^ x < n * 8192) (sym e) (omega (arith, b)),
    )

-- More than 8192 pages need a whole region.
pub size_index-last :
    (nb_pages : ℕ) → 0x2000 < nb_pages → nb_pages < nb_pages_alloc → size_index nb_pages ≡ 14
size_index-last n low high =
    let (a, b, c) = size_index_lem n (omega arith) high in
    let d : 25 < size_index n + shift = power_lt 25 (size_index n + shift) (omega (arith, b)) in
    omega (arith, a, d)

-- At most 8192 pages are half a region or less.
pub size_index-small : (nb_pages : ℕ) → 0 < nb_pages → nb_pages ≤ 0x2000 → size_index nb_pages < 14
size_index-small n low high =
    let (a, b, c) = size_index_lem n low (omega arith) in
    let d : size_index n + shift < 26 = power_lt (size_index n + shift) 26 (omega (arith, c)) in
    omega (arith, d)
