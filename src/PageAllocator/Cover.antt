-- ===== src/PageAllocator/Cover.antt =====
-- In how many free blocks of kernel/page_allocator.c an address is.
use domin_os.Base.{
  ℕ, zero, suc, ◌+◌, ◌^◌, true, ◌&&◌, List, [], ◌∷◌, ◌==◌, ltb, leb, if◌then◌else◌, ◌≡◌, refl,
  subst, ◌≢◌, ◌<◌, arith, inl, inr, Bool-cases, All,
}
use domin_os.PageAllocator.{FreeArea, map_size, shift, put_list, contains, remove}

-- 1 where the block of `2 ^ k` bytes at `b` has the address, and 0 elsewhere.
abbrev pub inside : ℕ → ℕ → ℕ → ℕ
inside k b q = if leb b q && ltb q (b + 2 ^ k) then 1 else 0

abbrev pub in_list : ℕ → List ℕ → ℕ → ℕ
in_list k [] q = 0
in_list k (x ∷ xs) q = inside k x q + in_list k xs q

unfoldable pub cover_below : ℕ → FreeArea → ℕ → ℕ
cover_below zero area q = 0
cover_below (suc n) area q = in_list (n + shift) (area.map n) q + cover_below n area q

abbrev pub cover : FreeArea → ℕ → ℕ
cover area q = cover_below map_size area q

pub cover_below-ext :
    (n : ℕ) (area area' : FreeArea) (q : ℕ)
    → ((i : ℕ) → i < n → area'.map i ≡ area.map i)
    → cover_below n area' q ≡ cover_below n area q
unfolding cover_below
cover_below-ext zero area area' q h = refl
cover_below-ext (suc n) area area' q h =
    rw (h n (omega arith), cover_below-ext n area area' q (λ i l. h i (omega arith))) refl

pub put_list-here : (i : ℕ) (xs : List ℕ) (area : FreeArea) → (put_list i xs area).map i ≡ xs
unfolding put_list
put_list-here i xs area = ground arith

pub put_list-there :
    (i j : ℕ) (xs : List ℕ) (area : FreeArea) → j ≢ i → (put_list i xs area).map j ≡ area.map j
unfolding put_list
put_list-there i j xs area n = ground arith

cover_below-put_list :
    (n i : ℕ) (xs : List ℕ) (area : FreeArea) (q : ℕ)
    → i < n
    → cover_below n (put_list i xs area) q + in_list (i + shift) (area.map i) q
      ≡ cover_below n area q + in_list (i + shift) xs q
unfolding cover_below
cover_below-put_list zero i xs area q h = ground arith
cover_below-put_list (suc n) i xs area q h = elim (Bool-cases (n == i)) [
  | inl e ↦
      let same : n ≡ i = ground arith in
      let rest =
        cover_below-ext n area (put_list i xs area) q
          (λ j l. put_list-there i j xs area (ground arith)) in
      rw
        (
          same,
          put_list-here i xs area,
          (subst (λ x. cover_below x (put_list i xs area) q ≡ cover_below x area q) same rest),
        )
        (omega arith)
  | inr e ↦
      rw (put_list-there i n xs area (ground arith))
        (omega (arith, cover_below-put_list n i xs area q (ground arith)))
]

pub cover-put_list :
    (i : ℕ) (xs : List ℕ) (area : FreeArea) (q : ℕ)
    → i < map_size
    → cover (put_list i xs area) q + in_list (i + shift) (area.map i) q
      ≡ cover area q + in_list (i + shift) xs q
cover-put_list i xs area q h = cover_below-put_list map_size i xs area q h

pub in_list-remove :
    (k b : ℕ) (xs : List ℕ) (q : ℕ)
    → contains b xs ≡ true
    → in_list k xs q ≡ inside k b q + in_list k (remove b xs) q
in_list-remove k b [] q e = cc
in_list-remove k b (x ∷ xs) q e = elim (Bool-cases (x == b)) [
  | inl s ↦ let same : x ≡ b = ground arith in rw (s, same) refl
  | inr s ↦ rw s (omega (arith, in_list-remove k b xs q (rw s at e)))
]

pub All-remove {κ} : (P : ℕ → Type κ) (b : ℕ) (xs : List ℕ) → All P xs → All P (remove b xs)
All-remove P b [] h = tt
All-remove P b (x ∷ xs) h = elim (Bool-cases (x == b)) [
  | inl s ↦ rw s h.1
  | inr s ↦ rw s (h.0, All-remove P b xs h.1)
]
