-- ===== src/PageAllocator/Alloc.antt =====
-- `alloc_physical_page` of kernel/page_allocator.c.
use domin_os.Base.{
  ℕ, ◌+◌, ◌-◌, true, false, ◌&&◌, some, [], ◌∷◌, ◌==◌, ◌≡◌, refl, sym, ap, subst, ◌∙◌, ◌≢◌, ◌≤◌,
  ◌<◌, ◌⊎◌, arith, inl, inr, All, Ensures, Ensures-mono,
}
use domin_os.Word.{int_lt}
use domin_os.PageAllocator.{
  FreeArea, map_size, shift, second_address, third_address, nb_pages_alloc, put_list, init_alloc,
  alloc_block, is_nil, size_index, scan_map, split_down, take_block, alloc_index,
  alloc_physical_page,
}
use domin_os.PageAllocator.Cover.{
  inside, in_list, cover, put_list-here, put_list-there, cover-put_list, cover_below-ext,
}
use domin_os.PageAllocator.Blocks.{IsAligned}
use domin_os.PageAllocator.Bits.{size_index_lem, size_index-small}
use domin_os.PageAllocator.Split.{IsArea, put_list-IsArea, IsSplit, split_down-IsSplit}
use domin_os.PageAllocator.Scan.{Scanned, scan_map-free, scan_map-new}

-- A block of the size is taken out of the free ones.
abbrev pub IsTaken : ℕ → FreeArea → ℕ × FreeArea → Type 0
IsTaken index area r =
    IsAligned (index + shift) r.0
    × IsArea r.1
    × ((q : ℕ) → cover r.1 q + inside (index + shift) r.0 q ≡ cover area q)

take_block-IsTaken :
    (index : ℕ) (area area' : FreeArea)
    → index < map_size
    → IsSplit index area area'
    → Ensures (IsTaken index area) (take_block index (area'.map index) area')
take_block-IsTaken index area area' l s =
    let blocks = subst (All (IsAligned (index + shift))) s.found (s.formed index l) in
    rw s.found (
      blocks.0,
      put_list-IsArea index s.blocks area' s.formed blocks.1,
      λ q.
          let e = ap (λ xs. in_list (index + shift) xs q) s.found in
          omega (arith, cover-put_list index s.blocks area' q l, s.same q, e),
    )

-- What follows the first loop.
Scanned-IsTaken :
    (index top : ℕ) (area area' : FreeArea)
    → IsArea area'
    → scan_map map_size index area ≡ some (top, area')
    → Scanned index area area' top
    → Ensures (IsTaken index area') (alloc_index index area)
unfolding alloc_index
Scanned-IsTaken index top area area' w e s = rw e (
    take_block-IsTaken index area' (split_down (top - index) index area')
      (omega (arith, s.above, s.below))
      (split_down-IsSplit (top - index) index top s.block s.blocks area' (omega (arith, s.above))
        s.below w s.found s.empty))

module _ (nb_pages : ℕ) (area : FreeArea) (low : 0 < nb_pages)
    (high : nb_pages < nb_pages_alloc) where
  abbrev index : ℕ
  index = size_index nb_pages

  index_small : index < map_size
  index_small = (size_index_lem nb_pages low high).0

  -- The assertions hold, and the area has its first region.
  past_assertions : area.nb_alloc ≢ 0 → alloc_physical_page nb_pages area ≡ alloc_index index area
  unfolding alloc_physical_page init_alloc
  past_assertions n =
      let valid : (int_lt 0 nb_pages && int_lt nb_pages nb_pages_alloc) ≡ true = ground arith in
      let begun : (area.nb_alloc == 0) ≡ false = ground arith in rw (valid, begun) refl

  -- In an area with a first region whose blocks lie at multiples of their sizes,
  -- `alloc_physical_page` of 1 to 0x3fff pages, when a list from the index of the size on is
  -- not empty, ends and returns a block of that size at a multiple of it; the blocks that stay
  -- lie at multiples of their sizes, and every address is in as many free blocks as before,
  -- less one if it is in the block returned.
  pub alloc_physical_page-IsTaken :
      (i : ℕ)
      → IsArea area
      → area.nb_alloc ≢ 0
      → index ≤ i
      → i < map_size
      → is_nil (area.map i) ≡ false
      → Ensures (IsTaken index area) (alloc_physical_page nb_pages area)
  alloc_physical_page-IsTaken i w n a b e =
      let (top, r, s) = scan_map-free map_size index i area a b (omega arith) e in
      subst (Ensures (IsTaken index area)) (sym (past_assertions n))
        (Scanned-IsTaken index top area area w r s)

  -- The next region, for an area that has one or two.
  module _ (region : ℕ)
      (last : (area.nb_alloc ≡ 1) × (region ≡ second_address)
        ⊎ (area.nb_alloc ≡ 2) × (region ≡ third_address)) where
    abbrev grown : FreeArea
    grown = record (put_list 14 (region ∷ []) area) { nb_alloc = area.nb_alloc + 1 }

    alloc_block-grown : alloc_block area ≡ some grown
    unfolding alloc_block
    alloc_block-grown = elim last [ inl (n, e) ↦ rw (n, e) refl | inr (n, e) ↦ rw (n, e) refl ]

    region-IsAligned : IsAligned 26 region
    region-IsAligned = elim last [ inl (n, e) ↦ (2, rw e refl) | inr (n, e) ↦ (3, rw e refl) ]

    grown-IsArea : IsArea area → IsArea grown
    grown-IsArea w = put_list-IsArea 14 (region ∷ []) area w (region-IsAligned, tt)

    grown-cover : area.map 14 ≡ [] → (q : ℕ) → cover grown q ≡ cover area q + inside 26 region q
    grown-cover e q =
        let same =
          cover_below-ext map_size (put_list 14 (region ∷ []) area) grown q (λ i l. refl) in
        let was = ap (λ xs. in_list 26 xs q) e in
        omega (arith, same, was, cover-put_list 14 (region ∷ []) area q (omega arith))

    -- When every list from the index of the size on is empty, the area has one or two
    -- regions, and 1 to 8192 pages are wanted, `alloc_physical_page` ends with a block of
    -- the size from the area with the next region: every address is in as many free blocks
    -- as before, one more if it is in the region and one less if it is in the block.
    pub alloc_physical_page-new :
        IsArea area
        → nb_pages ≤ 0x2000
        → ((j : ℕ) → index ≤ j → j < map_size → area.map j ≡ [])
        → Ensures
            (λ r.
              IsAligned (index + shift) r.0
              × IsArea r.1
              × ((q : ℕ)
                  → cover r.1 q + inside (index + shift) r.0 q ≡ cover area q + inside 26 region q))
            (alloc_physical_page nb_pages area)
    alloc_physical_page-new w small vacant =
        let few = size_index-small nb_pages low small in
        let (e, s) =
          scan_map-new map_size index area grown region few (omega (arith, few)) vacant
            alloc_block-grown (put_list-here 14 (region ∷ []) area)
            (λ j n. put_list-there 14 j (region ∷ []) area n) in
        let counted = grown-cover (vacant 14 (omega (arith, few)) (omega arith)) in
        subst
          (Ensures (λ r.
            IsAligned (index + shift) r.0
            × IsArea r.1
            × ((q : ℕ)
                → cover r.1 q + inside (index + shift) r.0 q ≡ cover area q + inside 26 region q)))
          (sym
            (past_assertions (elim last [ inl (n, z) ↦ omega arith | inr (n, z) ↦ omega arith ])))
          (Ensures-mono (IsTaken index grown) _ _
            (Scanned-IsTaken index 14 area grown (grown-IsArea w) e s)
            (λ r t. (t.0, t.1, λ q. t.2 q ∙ counted q)))
