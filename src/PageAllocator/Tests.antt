-- ===== src/PageAllocator/Tests.antt =====
-- Runs of the page allocator, and the theorems at small areas.
use domin_os.Base.{
  ℕ, ◌+◌, ◌*◌, ◌^◌, Option, none, some, [], ◌∷◌, ◌==◌, ◌>>=◌, if◌then◌else◌, ◌≡◌, refl, sym, subst,
  ◌≤◌, ◌<◌, arith, Ensures,
}
use domin_os.PageAllocator.{
  FreeArea, shift, first_address, second_address, third_address, put_list, init_alloc, count_bits,
  puiss2, size_index, scan_map, split_down, alloc_index, alloc_physical_page, merge_up,
  free_physical_page,
}
use domin_os.PageAllocator.Cover.{cover}
use domin_os.PageAllocator.Blocks.{IsAligned}
use domin_os.PageAllocator.Bits.{puiss2_lem}
use domin_os.PageAllocator.Split.{IsArea, put_list-IsArea}
use domin_os.PageAllocator.Alloc.{IsTaken, alloc_physical_page-IsTaken}
use domin_os.PageAllocator.Free.{
  IsFreed, IsHome, free_physical_page-IsFreed, free_physical_page-past_end,
  free_physical_page-alloc_physical_page,
}

abbrev no_blocks : ℕ → FreeArea
no_blocks n = record { map = λ i. []; nb_alloc = n }

no_blocks-IsArea : (n : ℕ) → IsArea (no_blocks n)
no_blocks-IsArea n i l = tt

-- The first region is whole.
abbrev one_region : FreeArea
one_region = record (no_blocks 1) { map = λ i. if i == 14 then first_address ∷ [] else [] }

one_region-IsArea : IsArea one_region
unfolding put_list
one_region-IsArea =
    put_list-IsArea 14 (first_address ∷ []) (no_blocks 1) (no_blocks-IsArea 1) ((1, refl), tt)

-- Three pages take four; given back, the region is whole again.
gives_back :
    (alloc_physical_page 3 (no_blocks 0) >>= λ r.
    some (r.0 + 4) >>= λ b. free_physical_page r.0 3 r.1 >>= λ a. some (a.map 14))
    ≡ some (first_address ∷ [])
unfolding alloc_physical_page init_alloc put_list alloc_index scan_map split_down puiss2 count_bits
    free_physical_page merge_up
gives_back = refl

index_three : size_index 3 ≡ 2
unfolding puiss2 count_bits
index_three = refl

puiss2_lem_example : (12288 ≤ 2 ^ puiss2 12288) × (2 ^ puiss2 12288 < 2 * 12288)
puiss2_lem_example = puiss2_lem 12288 (omega arith) (omega arith)

three_pages_small : size_index 3 ≤ 14
three_pages_small = omega (arith, index_three)

alloc_physical_page-IsTaken_example :
    Ensures (IsTaken (size_index 3) one_region) (alloc_physical_page 3 one_region)
alloc_physical_page-IsTaken_example =
    alloc_physical_page-IsTaken 3 one_region (omega arith) (omega arith) 14 one_region-IsArea
      (λ e. ground arith) three_pages_small (omega arith) refl

three_pages-IsAligned : IsAligned (size_index 3 + shift) first_address
three_pages-IsAligned =
    subst (λ i. IsAligned (i + shift) first_address) (sym index_three) (4096, refl)

free_physical_page-IsFreed_example :
    Ensures
      (IsFreed (size_index 3) first_address (no_blocks 1))
      (free_physical_page first_address 3 (no_blocks 1))
free_physical_page-IsFreed_example =
    free_physical_page-IsFreed 3 1 first_address (no_blocks 1) (omega arith) (omega arith)
      (no_blocks-IsArea 1) three_pages-IsAligned (omega arith, omega arith, refl)

abbrev third_whole : FreeArea
third_whole = record (no_blocks 3) { map = λ i. if i == 14 then third_address ∷ [] else [] }

free_physical_page-past_end_example : free_physical_page second_address 0x2001 third_whole ≡ none
free_physical_page-past_end_example =
    free_physical_page-past_end 0x2001 third_whole (omega arith) (omega arith) refl

abbrev area_in : Option (ℕ × FreeArea) → FreeArea
area_in none = no_blocks 0
area_in (some r) = r.1

abbrev three_taken : FreeArea
three_taken = area_in (alloc_physical_page 3 one_region)

takes_three : alloc_physical_page 3 one_region ≡ some (first_address, three_taken)
unfolding alloc_physical_page init_alloc put_list alloc_index scan_map split_down puiss2 count_bits
takes_three = refl

three_taken-IsHome : IsHome 1 first_address three_taken
unfolding alloc_physical_page init_alloc put_list alloc_index scan_map split_down puiss2 count_bits
three_taken-IsHome = (omega arith, omega arith, refl)

free_physical_page-alloc_physical_page_example :
    Ensures
      (λ area. IsArea area × ((q : ℕ) → cover area q ≡ cover one_region q))
      (free_physical_page first_address 3 three_taken)
free_physical_page-alloc_physical_page_example =
    free_physical_page-alloc_physical_page 3 14 1 first_address one_region three_taken (omega arith)
      (omega arith) one_region-IsArea (λ e. ground arith) three_pages_small (omega arith) refl
      takes_three three_taken-IsHome
