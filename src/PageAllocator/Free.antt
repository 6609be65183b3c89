-- ===== src/PageAllocator/Free.antt =====
-- `free_physical_page` of kernel/page_allocator.c.
use domin_os.Base.{
  ℕ, zero, suc, ◌+◌, ◌-◌, ◌*◌, ◌^◌, true, false, none, some, ◌∷◌, ◌==◌, ◌≡◌, refl, sym, ap, subst,
  ◌∙◌, ◌≢◌, ◌≤◌, ◌<◌, arith, inl, inr, Bool-cases, Ensures, Ensures-mono,
}
use domin_os.PageAllocator.{
  FreeArea, nb_pages_alloc, second_address, third_address, is_nil, alloc_physical_page, map_size,
  shift, put_list, flip, lower, contains, remove, size_index, merge_up, free_physical_page,
}
use domin_os.PageAllocator.Cover.{
  inside, cover, put_list-there, cover-put_list, in_list-remove, All-remove,
}
use domin_os.PageAllocator.Blocks.{IsAligned, join-IsAligned, lower-bounds}
use domin_os.PageAllocator.Bits.{size_index_lem, size_index-last}
use domin_os.PageAllocator.Split.{IsArea, put_list-IsArea}
use domin_os.PageAllocator.Alloc.{IsTaken, alloc_physical_page-IsTaken}

-- The block is one of the free ones.
abbrev pub IsFreed : ℕ → ℕ → FreeArea → FreeArea → Type 0
IsFreed index page area area' =
    IsArea area' × ((q : ℕ) → cover area' q ≡ cover area q + inside (index + shift) page q)

-- The page is in the region `home`, whose buddy is not whole.
abbrev pub IsHome : ℕ → ℕ → FreeArea → Type 0
IsHome home page area =
    (home * 2 ^ 26 ≤ page)
    × (page < (home + 1) * 2 ^ 26)
    × (contains (flip 26 (home * 2 ^ 26)) (area.map 14) ≡ false)

push-IsFreed :
    (index page : ℕ) (area : FreeArea)
    → index < map_size
    → IsArea area
    → IsAligned (index + shift) page
    → IsFreed index page area (put_list index (page ∷ area.map index) area)
push-IsFreed index page area l w a = (
  put_list-IsArea index (page ∷ area.map index) area w (a, w index l),
  λ q. omega (arith, cover-put_list index (page ∷ area.map index) area q l),
)

-- At the last size the page is its region.
home_page :
    (home page : ℕ)
    → home * 2 ^ 26 ≤ page
    → page < (home + 1) * 2 ^ 26
    → IsAligned 26 page
    → page ≡ home * 2 ^ 26
home_page home page low high (m, e) =
    let same : m ≡ home = omega (arith, e) in e ∙ ap (λ x. x * 2 ^ 26) same

merge_up-IsFreed :
    (n index home page : ℕ) (area : FreeArea)
    → index + n ≡ map_size
    → index < map_size
    → IsArea area
    → IsAligned (index + shift) page
    → IsHome home page area
    → Ensures (IsFreed index page area) (merge_up n index page area)
unfolding merge_up
merge_up-IsFreed zero index home page area e l w a h = absurd (omega arith)
merge_up-IsFreed (suc n) index home page area e l w a h =
    let buddy = flip (index + shift) page in
    elim (Bool-cases (contains buddy (area.map index))) [
      | inr c ↦ rw c (push-IsFreed index page area l w a)
      | inl c ↦ elim (Bool-cases (index == 14)) [
        | inl s ↦
            let s' : index ≡ 14 = ground arith in
            let p = home_page home page h.0 h.1 (subst (λ x. IsAligned (x + shift) page) s' a) in
            absurd (
              ground (
                arith,
                sym (ap (λ x. contains (flip (x + shift) page) (area.map x)) s') ∙ c,
                ap (λ x. contains (flip 26 x) (area.map 14)) p ∙ h.2,
              ))
        | inr s ↦
            let small : suc index < map_size = ground arith in
            let area1 = put_list index (remove buddy (area.map index)) area in
            let (joined, covered) = join-IsAligned (index + shift) page a in
            let k : suc index + shift ≡ suc (index + shift) = omega arith in
            let (low, high) = lower-bounds (index + shift) home page (omega arith) a h.0 h.1 in
            let rest =
              merge_up-IsFreed n (suc index) home (lower page buddy) area1 (omega arith) small
                (put_list-IsArea index (remove buddy (area.map index)) area w
                  (All-remove _ buddy (area.map index) (w index l)))
                (subst (λ x. IsAligned x (lower page buddy)) (sym k) joined)
                (
                  low,
                  high,
                  ap (contains (flip 26 (home * 2 ^ 26))) (
                        put_list-there index 14 (remove buddy (area.map index)) area (ground arith))
                      ∙ h.2,
                ) in
            rw c (
              Ensures-mono (IsFreed (suc index) (lower page buddy) area1) _ _ rest λ area' f. (
                f.0,
                λ q. omega (
                  arith,
                  f.1 q,
                  ap (λ x. inside x (lower page buddy) q) k,
                  covered q,
                  cover-put_list index (remove buddy (area.map index)) area q l,
                  in_list-remove (index + shift) buddy (area.map index) q c,
                ),
              ))
      ]
    ]

-- `free_physical_page` of a block of 1 to 0x3fff pages at a multiple of its size, in an area
-- whose blocks lie at multiples of their sizes and in which the buddy of the region of the block
-- is not whole, ends; the blocks lie at multiples of their sizes, and every address is in as
-- many free blocks as before, and one more if it is in the block.
pub free_physical_page-IsFreed :
    (nb_pages home page : ℕ) (area : FreeArea)
    → 0 < nb_pages
    → nb_pages < nb_pages_alloc
    → IsArea area
    → IsAligned (size_index nb_pages + shift) page
    → IsHome home page area
    → Ensures (IsFreed (size_index nb_pages) page area) (free_physical_page page nb_pages area)
unfolding free_physical_page
free_physical_page-IsFreed n home page area low high w a h =
    let (small, b, c) = size_index_lem n low high in
    merge_up-IsFreed (map_size - size_index n) (size_index n) home page area (omega (arith, small))
      small w a h

last_merge :
    (area : FreeArea)
    → contains third_address (area.map 14) ≡ true
    → merge_up 1 14 second_address area ≡ none
unfolding merge_up
last_merge area c = rw c refl

-- `free_physical_page` of the whole second region, when the third is whole, writes the map past
-- its end.
pub free_physical_page-past_end :
    (nb_pages : ℕ) (area : FreeArea)
    → 0x2000 < nb_pages
    → nb_pages < nb_pages_alloc
    → contains third_address (area.map 14) ≡ true
    → free_physical_page second_address nb_pages area ≡ none
unfolding free_physical_page
free_physical_page-past_end n area low high c =
    ap (λ i. merge_up (map_size - i) i second_address area) (size_index-last n low high)
    ∙ last_merge area c

-- When `alloc_physical_page` has returned a block, under the conditions above, and the buddy of
-- the region of the block is not whole, `free_physical_page` of it ends, and every address is in
-- as many free blocks as before both calls.
pub free_physical_page-alloc_physical_page :
    (nb_pages i home b : ℕ) (area area' : FreeArea)
    → 0 < nb_pages
    → nb_pages < nb_pages_alloc
    → IsArea area
    → area.nb_alloc ≢ 0
    → size_index nb_pages ≤ i
    → i < map_size
    → is_nil (area.map i) ≡ false
    → alloc_physical_page nb_pages area ≡ some (b, area')
    → IsHome home b area'
    → Ensures
        (λ area''. IsArea area'' × ((q : ℕ) → cover area'' q ≡ cover area q))
        (free_physical_page b nb_pages area')
free_physical_page-alloc_physical_page n i home b area area' low high w z a l e made h =
    let t : IsTaken (size_index n) area (b, area') =
      subst (Ensures (IsTaken (size_index n) area)) made
        (alloc_physical_page-IsTaken n area low high i w z a l e) in
    Ensures-mono (IsFreed (size_index n) b area') _ _
      (free_physical_page-IsFreed n home b area' low high t.1 t.0 h)
      λ area'' f. (f.0, λ q. f.1 q ∙ t.2 q)
