-- ===== src/Shm/Slots.antt =====
-- The virtual addresses of shared pages: `allocate_memory` and `free_memory` of kernel/shm.c.
use domin_os.Base.{
  ℕ, zero, suc, ◌+◌, ◌*◌, ◌/◌, ◌%◌, Bool, true, false, Option, none, some, ◌==◌, ◌≡◌, refl, sym, ap,
  ◌∙◌, ◌≤◌, ◌<◌, ◌⊎◌, inl, inr, ltb, arith, Bool-cases,
}
use domin_os.Word.{word, sub32}
use domin_os.Paging.{page_size}
use domin_os.Shm.{page_max, shared_start, set_slot, allocate_from, allocate_memory, free_memory}

abbrev pub slot_address : ℕ → ℕ
slot_address i = shared_start + page_size * i

-- The slot that is taken is the lowest unused one from `i` on; there is none only if all of the `n`
-- are used.
abbrev pub Allocated : ℕ → ℕ → (ℕ → Bool) → Option (ℕ × (ℕ → Bool)) → Type 0
Allocated n i virtual_map result =
    ((result ≡ none) × ((j : ℕ) → i ≤ j → j < i + n → virtual_map j ≡ true))
    ⊎ ((s : ℕ) × (result ≡ some (slot_address s, set_slot s true virtual_map))
        × (s < i + n)
        × (virtual_map s ≡ false)
        × ((j : ℕ) → i ≤ j → j < s → virtual_map j ≡ true))

allocate_from-Allocated :
    (n i : ℕ) (virtual_map : ℕ → Bool) → Allocated n i virtual_map (allocate_from n i virtual_map)
unfolding allocate_from
allocate_from-Allocated zero i map = inl (refl, λ j l m. absurd (omega arith))
allocate_from-Allocated (suc n) i map = elim (Bool-cases (map i)) [
  | inr e ↦ rw e (inr (i, refl, omega arith, e, λ j l m. absurd (omega arith)))
  | inl e ↦ rw e (elim (allocate_from-Allocated n (suc i) map) [
    | inl (r, used) ↦ inl (
      r,
      λ j l m. elim (Bool-cases (j == i)) [
        | inl s ↦ let s' : j ≡ i = ground arith in rw (s', e) refl
        | inr s ↦ used j (ground arith) (omega arith)
      ],
    )
    | inr (s, r, l, free, used) ↦ inr (
      s,
      r,
      omega arith,
      free,
      λ j l m. elim (Bool-cases (j == i)) [
        | inl x ↦ let x' : j ≡ i = ground arith in rw (x', e) refl
        | inr x ↦ used j (ground arith) m
      ],
    )
  ])
]

pub allocate_memory-Allocated :
    (virtual_map : ℕ → Bool) → Allocated page_max 0 virtual_map (allocate_memory virtual_map)
allocate_memory-Allocated map = allocate_from-Allocated page_max 0 map

pub slot_address-index :
    (i : ℕ) → i < page_max → sub32 (slot_address i) shared_start / page_size ≡ i
slot_address-index i l = omega arith

address_in : Option (ℕ × (ℕ → Bool)) → ℕ
address_in none = 0
address_in (some r) = r.0

slots_in : Option (ℕ × (ℕ → Bool)) → ℕ → Bool
slots_in none i = false
slots_in (some r) i = r.1 i

module _ (virtual_map slots : ℕ → Bool) (address : ℕ)
    (e : allocate_memory virtual_map ≡ some (address, slots)) where
  taken_slot :
      (s : ℕ) × (address ≡ slot_address s)
      × (slots ≡ set_slot s true virtual_map)
      × (s < page_max)
      × (virtual_map s ≡ false)
  unfolding address_in slots_in
  taken_slot = elim (allocate_memory-Allocated virtual_map) [
    | inl (r, used) ↦ absurd (ground (arith, sym r ∙ e))
    | inr (s, r, l, free, used) ↦
        (s, ap address_in (sym e ∙ r), ap slots_in (sym e ∙ r), omega arith, free)
  ]

  -- An address that `allocate_memory` returns is that of a whole page between SHARED_START and
  -- 2 ^ 32.
  pub allocate_memory-bounds :
      (shared_start ≤ address) × (address + page_size ≤ word) × (address % page_size ≡ 0)
  allocate_memory-bounds =
      let (s, a, m, l, free) = taken_slot in
      (omega (arith, a), omega (arith, a, l), omega (arith, a))

  pub free_memory-allocate_memory : (i : ℕ) → free_memory address slots i ≡ virtual_map i
  free_memory-allocate_memory i =
      let (s, a, m, l, free) = taken_slot in
      let index = slot_address-index s l in
      rw (a, m, index)
        (elim (Bool-cases (i == s)) [
          | inl x ↦ let x' : i ≡ s = ground arith in rw (x, x', free) refl
          | inr x ↦ rw x refl
        ])

pub allocate_memory-lowest :
    (virtual_map : ℕ → Bool) (s : ℕ)
    → s < page_max
    → virtual_map s ≡ false
    → ((j : ℕ) → j < s → virtual_map j ≡ true)
    → allocate_memory virtual_map ≡ some (slot_address s, set_slot s true virtual_map)
allocate_memory-lowest map s l free lower = elim (allocate_memory-Allocated map) [
  | inl (r, used) ↦ absurd (ground (arith, used s (omega arith) (omega arith)))
  | inr (t, r, b, unused, used) ↦ elim (Bool-cases (ltb t s)) [
    | inl c ↦ absurd (ground (arith, lower t (ground arith)))
    | inr c ↦ elim (Bool-cases (s == t)) [
      | inl d ↦ let same : s ≡ t = ground arith in rw same r
      | inr d ↦ absurd (ground (arith, used s (omega arith) (ground arith)))
    ]
  ]
]

pub allocate_memory-full :
    (virtual_map : ℕ → Bool)
    → ((j : ℕ) → j < page_max → virtual_map j ≡ true)
    → allocate_memory virtual_map ≡ none
allocate_memory-full map all = elim (allocate_memory-Allocated map) [
  | inl (r, used) ↦ r
  | inr (t, r, b, unused, used) ↦ absurd (ground (arith, all t (omega arith)))
]
