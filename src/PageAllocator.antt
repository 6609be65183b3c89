-- ===== src/PageAllocator.antt =====
-- The buddy allocator of physical pages: kernel/page_allocator.c. The blocks of a size, which the
-- code links through their first words, are a list. The result is `none` where the code panics, an
-- assertion fails, or `map` is read or written past its end.
pub mod Cover
pub mod Blocks
pub mod Bits
pub mod Split
pub mod Scan
pub mod Alloc
pub mod Free
pub mod Tests
use domin_os.Base.{
  ℕ, zero, suc, ◌+◌, ◌-◌, ◌*◌, ◌/◌, ◌%◌, ◌^◌, Bool, true, false, ◌&&◌, ◌||◌, not, Option, none,
  some, List, [], ◌∷◌, ◌==◌, ltb, leb, if◌then◌else◌, ◌>>=◌,
}
use domin_os.Word.{word, int_lt, sub32}

abbrev pub first_address : ℕ
first_address = 0x4000000

abbrev pub second_address : ℕ
second_address = 0x8000000

abbrev pub third_address : ℕ
third_address = 0xc000000

abbrev pub nb_pages_alloc : ℕ
nb_pages_alloc = 0x4000

abbrev pub map_size : ℕ
map_size = 15

abbrev pub shift : ℕ
shift = 12

pub record FreeArea : Type 0 where
  pub map : ℕ → List ℕ
  pub nb_alloc : ℕ

unfoldable pub put_list : ℕ → List ℕ → FreeArea → FreeArea
put_list i xs area = record area { map = λ j. if j == i then xs else area.map j }

unfoldable pub init_alloc : FreeArea → FreeArea
init_alloc area =
    if area.nb_alloc == 0
    then record (put_list (map_size - 1) (first_address ∷ []) area) { nb_alloc = area.nb_alloc + 1 }
    else area

unfoldable pub alloc_block : FreeArea → Option FreeArea
alloc_block area =
    if area.nb_alloc == 1
    then some (record (put_list (map_size - 1) (second_address ∷ []) area) {
      nb_alloc = area.nb_alloc + 1;
    })
    else if area.nb_alloc == 2
    then some (record (put_list (map_size - 1) (third_address ∷ []) area) {
      nb_alloc = area.nb_alloc + 1;
    })
    else none

-- The loop of `puiss2`, with a step for each bit of a word.
unfoldable pub count_bits : ℕ → ℕ → ℕ → ℕ
count_bits zero size p = p
count_bits (suc n) size p =
    let rest = count_bits n (size / 2) (p + 1) in if size == 0 then p else rest

-- The loop ends with `size` 0.
unfoldable pub puiss2 : ℕ → ℕ
puiss2 size = let p = count_bits 32 (sub32 size 1) 0 in if int_lt (2 ^ p % word) 0 then p + 1 else p

abbrev pub size_index : ℕ → ℕ
size_index nb_pages = puiss2 (nb_pages * 2 ^ shift % word) - shift

abbrev pub is_nil : List ℕ → Bool
is_nil [] = true
is_nil (x ∷ xs) = false

-- The first loop of `alloc_physical_page`.
unfoldable pub scan_map : ℕ → ℕ → FreeArea → Option (ℕ × FreeArea)
scan_map zero scan_index area = none
scan_map (suc fuel) scan_index area =
    let next = suc scan_index in
    let rest = scan_map fuel next area in
    let more = alloc_block area >>= scan_map fuel next in
    if leb map_size scan_index
    then none
    else if not (is_nil (area.map scan_index))
    then some (scan_index, area)
    else if (next == map_size - 1) && is_nil (area.map next)
    then more
    else rest

-- `a ^ (1 << k)`: the bit is turned.
abbrev pub flip : ℕ → ℕ → ℕ
flip k a = if a / 2 ^ k % 2 == 0 then a + 2 ^ k else a - 2 ^ k

-- One pass of the second loop: a block of the size `suc i` becomes two of the size `i`.
abbrev pub split_block : ℕ → List ℕ → FreeArea → FreeArea
split_block i [] area = area
split_block i (b ∷ bs) area = put_list i (b ∷ flip (i + shift) b ∷ []) (put_list (suc i) bs area)

-- The second loop, for the `n` sizes above `index`.
unfoldable pub split_down : ℕ → ℕ → FreeArea → FreeArea
split_down zero index area = area
split_down (suc n) index area =
    split_down n index (split_block (index + n) (area.map (suc (index + n))) area)

-- `ptr = area.map[index]; area.map[index] = *ptr`.
abbrev pub take_block : ℕ → List ℕ → FreeArea → Option (ℕ × FreeArea)
take_block index [] area = none
take_block index (b ∷ bs) area = some (b, put_list index bs area)

-- `alloc_physical_page` past its assertions.
unfoldable pub alloc_index : ℕ → FreeArea → Option (ℕ × FreeArea)
alloc_index index area = do
  r ← scan_map map_size index area
  take_block index ((split_down (r.0 - index) index r.1).map index)
      (split_down (r.0 - index) index r.1)

unfoldable pub alloc_physical_page : ℕ → FreeArea → Option (ℕ × FreeArea)
alloc_physical_page nb_pages area =
    if int_lt 0 nb_pages && int_lt nb_pages nb_pages_alloc
    then alloc_index (size_index nb_pages) (init_alloc area)
    else none

abbrev pub contains : ℕ → List ℕ → Bool
contains b [] = false
contains b (x ∷ xs) = if x == b then true else contains b xs

abbrev pub remove : ℕ → List ℕ → List ℕ
remove b [] = []
remove b (x ∷ xs) = if x == b then xs else x ∷ remove b xs

abbrev pub lower : ℕ → ℕ → ℕ
lower a b = if ltb a b then a else b

-- The loop of `free_physical_page` and what follows it; a step for each size.
unfoldable pub merge_up : ℕ → ℕ → ℕ → FreeArea → Option FreeArea
merge_up zero index page area = none
merge_up (suc n) index page area =
    let buddy = flip (index + shift) page in
    let rest =
      merge_up n (suc index) (lower page buddy)
        (put_list index (remove buddy (area.map index)) area) in
    if contains buddy (area.map index)
    then rest
    else some (put_list index (page ∷ area.map index) area)

unfoldable pub free_physical_page : ℕ → ℕ → FreeArea → Option FreeArea
free_physical_page page nb_pages area =
    let index = size_index nb_pages in merge_up (map_size - index) index page area
