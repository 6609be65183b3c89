-- ===== src/Paging.antt =====
-- The page tables: kernel/paging.c. Memory is the words of each page, by the page's address and the
-- index of the word; `free_pages` are the pages that `alloc_physical_page(1)` gives, in this order,
-- before it panics. An entry is an aligned address with its flags in the lower 12 bits, so `|` is
-- addition here.
pub mod Tables
pub mod Zones
pub mod Unmap
pub mod Directory
pub mod Tests
use domin_os.Base.{
  ℕ, zero, suc, ◌+◌, ◌-◌, ◌*◌, ◌/◌, ◌%◌, ◌^◌, Bool, true, false, ◌&&◌, not, ltb, leb, Option, none,
  some, List, [], ◌∷◌, ◌==◌, if◌then◌else◌, ◌>>=◌,
}

pub record Memory : Type 0 where
  pub word : ℕ → ℕ → ℕ
  pub free_pages : List ℕ

abbrev pub page_size : ℕ
page_size = 4096

-- The upper and the middle ten bits of an address.
abbrev pub pd_index : ℕ → ℕ
pd_index virt = virt / 2 ^ 22

abbrev pub pt_index : ℕ → ℕ
pt_index virt = virt / 2 ^ 12 % 1024

abbrev pub is_present : ℕ → Bool
is_present entry = entry % 2 == 1

-- `& 0xFFFFF000`.
abbrev pub align : ℕ → ℕ
align addr = addr / page_size * page_size

-- `flags | PRESENT`.
abbrev pub with_present : ℕ → ℕ
with_present flags = flags / 2 * 2 + 1

-- The page table of an entry of the directory.
abbrev pub table_at : ℕ → ℕ → Memory → ℕ
table_at dir i mem = align (mem.word dir i)

unfoldable pub store : ℕ → ℕ → ℕ → Memory → Memory
store page i v mem = record mem {
  word = λ p j. if (p == page) && (j == i) then v else mem.word p j;
}

-- `memset(page, 0, PAGE_SIZE)`.
unfoldable pub clear_page : ℕ → Memory → Memory
clear_page page mem = record mem { word = λ p j. if p == page then 0 else mem.word p j }

-- A new page table, where the directory has none.
unfoldable pub ensure_table : ℕ → ℕ → ℕ → Memory → Option Memory
ensure_table dir i flags mem =
    if is_present (mem.word dir i) then some mem else elim mem.free_pages [
      | [] ↦ none
      | p ∷ ps ↦
          some
            (store dir i (p + with_present flags) (clear_page p (record mem { free_pages = ps })))
    ]

unfoldable pub map_page : ℕ → ℕ → ℕ → ℕ → Memory → Option Memory
map_page dir virt phy flags mem = do
  mem1 ← ensure_table dir (pd_index virt) flags mem
  some (store (table_at dir (pd_index virt) mem1) (pt_index virt) (phy + with_present flags) mem1)

-- The loop of `map_zone`, with fuel.
unfoldable pub map_from : ℕ → ℕ → ℕ → ℕ → ℕ → ℕ → Memory → Option Memory
map_from zero dir virt virt_end phy flags mem = none
map_from (suc fuel) dir virt virt_end phy flags mem =
    let rest =
      map_page dir virt phy flags mem
      >>= map_from fuel dir (virt + page_size) virt_end (phy + page_size) flags in
    if leb virt virt_end then rest else some mem

-- `ALIGN_UP` rounds down like `ALIGN`.
unfoldable pub map_zone : ℕ → ℕ → ℕ → ℕ → ℕ → ℕ → ℕ → Memory → Option Memory
map_zone fuel dir virt_start virt_end phy_start phy_end flags mem =
    if not (virt_end - virt_start == phy_end - phy_start)
    then none
    else map_from fuel dir (align virt_start) (align virt_end) (align phy_start) flags mem

-- One pass of the loop of `unmap_zone`.
unfoldable pub unmap_page : ℕ → ℕ → Memory → Memory
unmap_page dir virt mem =
    if is_present (mem.word dir (pd_index virt))
    then store (table_at dir (pd_index virt) mem) (pt_index virt) 0 mem
    else mem

unfoldable pub unmap_from : ℕ → ℕ → ℕ → ℕ → Memory → Option Memory
unmap_from zero dir virt virt_end mem = none
unmap_from (suc fuel) dir virt virt_end mem =
    let rest = unmap_from fuel dir (virt + page_size) virt_end (unmap_page dir virt mem) in
    if leb virt virt_end then rest else some mem

unfoldable pub unmap_zone : ℕ → ℕ → ℕ → ℕ → Memory → Option Memory
unmap_zone fuel dir virt_start virt_end mem =
    unmap_from fuel dir (align virt_start) (align virt_end) mem

-- `& US`.
unfoldable pub is_user_addr : ℕ → ℕ → Memory → Bool
is_user_addr dir virt mem =
    if is_present (mem.word dir (pd_index virt))
    then mem.word (table_at dir (pd_index virt) mem) (pt_index virt) / 4 % 2 == 1
    else false
