-- ===== src/PageAllocator/Scan.antt =====
-- The first loop of `alloc_physical_page` of kernel/page_allocator.c.
use domin_os.Base.{
  ℕ, zero, suc, ◌+◌, ◌-◌, true, false, ◌&&◌, none, some, List, [], ◌∷◌, ◌==◌, leb, ◌≡◌, refl, sym,
  ap, subst, ◌∙◌, ◌≢◌, ◌≤◌, ◌<◌, arith, inl, inr, Bool-cases,
}
use domin_os.PageAllocator.{FreeArea, map_size, is_nil, alloc_block, scan_map}

is_nil-nil : (xs : List ℕ) → is_nil xs ≡ true → xs ≡ []
is_nil-nil [] e = refl
is_nil-nil (x ∷ xs) e = cc

is_nil-cons : (xs : List ℕ) → is_nil xs ≡ false → (b : ℕ) × (bs : List ℕ) × (xs ≡ b ∷ bs)
is_nil-cons [] e = cc
is_nil-cons (x ∷ xs) e = (x, xs, refl)

-- What the loop finds: the first list from `index` on that is not empty.
pub record Scanned (index : ℕ) (area area' : FreeArea) (top : ℕ) : Type 0 where
  pub above : index ≤ top
  pub below : top < map_size
  pub block : ℕ
  pub blocks : List ℕ
  pub found : area'.map top ≡ block ∷ blocks
  pub empty : (j : ℕ) → index ≤ j → j < top → area'.map j ≡ []

-- There is a block in one of the lists from `index` on.
pub scan_map-free :
    (fuel index i : ℕ) (area : FreeArea)
    → index ≤ i
    → i < map_size
    → map_size ≤ index + fuel
    → is_nil (area.map i) ≡ false
    → (top : ℕ) × (scan_map fuel index area ≡ some (top, area)) × Scanned index area area top
unfolding scan_map
scan_map-free zero index i area a b f e = absurd (omega arith)
scan_map-free (suc fuel) index i area a b f e =
    let small : leb map_size index ≡ false = ground arith in
    elim (Bool-cases (is_nil (area.map index))) [
      | inr n ↦
          let (x, xs, s) = is_nil-cons (area.map index) n in
          (
            index,
            rw (small, n) refl,
            record {
              above = omega arith;
              below = omega arith;
              block = x;
              blocks = xs;
              found = s;
              empty = λ j c d. absurd (omega arith);
            },
          )
      | inl n ↦
          let later : index ≢ i =
            λ s. absurd (ground (arith, ap (λ x. is_nil (area.map x)) (sym s), e, n)) in
          let no_new : ((suc index == map_size - 1) && is_nil (area.map (suc index))) ≡ false =
            elim (Bool-cases (suc index == map_size - 1)) [
              | inl c ↦
                  let s : suc index ≡ i = ground (arith, later) in
                  ground (arith, subst (λ x. is_nil (area.map x) ≡ false) (sym s) e)
              | inr c ↦ rw c refl
            ] in
          let (top, r, q) =
            scan_map-free fuel (suc index) i area (omega (arith, later)) b (omega arith) e in
          (
            top,
            rw (small, n, no_new) r,
            record {
              above = omega (arith, q.above);
              below = q.below;
              block = q.block;
              blocks = q.blocks;
              found = q.found;
              empty = λ j c d. elim (Bool-cases (j == index)) [
                | inl s ↦
                    let s' : index ≡ j = ground arith in
                    subst (λ x. area.map x ≡ []) s' (is_nil-nil (area.map index) n)
                | inr s ↦ q.empty j (ground arith) d
              ];
            },
          )
    ]

-- The lists are empty from `index` on: the loop takes a new region.
pub scan_map-new :
    (fuel index : ℕ) (area area' : FreeArea) (b : ℕ)
    → index < map_size - 1
    → map_size ≤ index + fuel
    → ((j : ℕ) → index ≤ j → j < map_size → area.map j ≡ [])
    → alloc_block area ≡ some area'
    → area'.map 14 ≡ b ∷ []
    → ((j : ℕ) → j ≢ 14 → area'.map j ≡ area.map j)
    → (scan_map fuel index area ≡ some (14, area')) × Scanned index area area' 14
unfolding scan_map
scan_map-new zero index area area' b a f vacant new one others = absurd (omega arith)
scan_map-new (suc zero) index area area' b a f vacant new one others = absurd (omega arith)
scan_map-new (suc (suc fuel)) index area area' b a f vacant new one others =
    let small : leb map_size index ≡ false = ground arith in
    let n : is_nil (area.map index) ≡ true = ap is_nil (vacant index (omega arith) (omega arith)) in
    let n' : is_nil (area.map (suc index)) ≡ true =
      ap is_nil (vacant (suc index) (omega arith) (omega arith)) in
    let q : Scanned index area area' 14 = record {
      above = omega arith;
      below = omega arith;
      block = b;
      blocks = [];
      found = one;
      empty = λ j c d. others j (omega arith) ∙ vacant j c (omega arith);
    } in
    elim (Bool-cases (suc index == map_size - 1)) [
      | inl c ↦
          let s : suc index ≡ 14 = ground arith in
          let filled : is_nil (area'.map 14) ≡ false = ap is_nil one in
          (rw (small, n, c, n', new, s, filled) refl, q)
      | inr c ↦
          let rest =
            scan_map-new (suc fuel) (suc index) area area' b (ground arith) (omega arith)
              (λ j d e. vacant j (omega arith) e) new one others in
          (rw (small, n, c) (unfold scan_map in rest.0), q)
    ]

-- After the last list the loop reads past the end of the map.
pub scan_map-past :
    (n : ℕ) (area : FreeArea) → area.map 14 ≡ [] → scan_map (suc (suc n)) 14 area ≡ none
unfolding scan_map
scan_map-past n area e = let nil : is_nil (area.map 14) ≡ true = ap is_nil e in rw nil refl
