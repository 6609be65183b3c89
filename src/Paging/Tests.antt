-- ===== src/Paging/Tests.antt =====
-- Runs of the page tables, and the theorems at an empty directory with two free pages.
use domin_os.Base.{
  ℕ, ltb, ◌+◌, false, ◌&&◌, some, [], ◌∷◌, ◌==◌, if◌then◌else◌, ◌>>=◌, ◌≡◌, refl, arith, Ensures,
}
use domin_os.Paging.{
  Memory, map_page, map_zone, map_from, ensure_table, store, clear_page, unmap_page, unmap_zone,
  unmap_from, is_user_addr,
}
use domin_os.Paging.Tables.{WellMapped}
use domin_os.Paging.Unmap.{ZoneUnmapped, unmap_zone-ZoneUnmapped}
use domin_os.Paging.Directory.{
  page_directory_create, copy_entries, page_directory_destroy, free_tables, IsBoot,
  page_directory_create-WellMapped,
}

-- The directory is the page at 4096.
abbrev blank_memory : Memory
blank_memory = record { word = λ p j. 0; free_pages = 8192 ∷ 12288 ∷ [] }

-- The page at 1 GB, mapped for programs to read and write.
maps :
    (map_page 4096 0x40000000 0x5000 6 blank_memory >>= λ m.
    some (m.word 4096 256) >>= λ d. some (d + m.word 8192 0))
    ≡ some (8192 + 7 + 0x5000 + 7)
unfolding map_page ensure_table store clear_page
maps = refl

-- A zone within one page, from an address inside it, and its removal.
unmaps :
    (map_zone 3 4096 0x40000010 0x40000020 0x5010 0x5020 6 blank_memory
      >>= unmap_zone 3 4096 0x40000010 0x40000020
      >>= λ m. some (is_user_addr 4096 0x40000000 m))
    ≡ some false
unfolding map_zone map_from map_page ensure_table store clear_page unmap_zone unmap_from unmap_page
    is_user_addr
unmaps = refl

-- A directory with a table at 8192 whose first entry is set.
abbrev one_table : Memory
one_table = record {
  word = λ p j.
      if (p == 4096) && (j == 256) then 8199 else if (p == 8192) && (j == 0) then 0x5007 else 0;
  free_pages = [];
}

one_table-WellMapped : WellMapped 4096 one_table
one_table-WellMapped = record {
  apart = λ i j n h g. ground arith;
  not_dir = λ i h. ground arith;
  unused = tt;
  not_free = tt;
  distinct = tt;
  aligned = tt;
}

unmap_zone-ZoneUnmapped_example :
    Ensures
      (ZoneUnmapped 4096 0x40000000 1 one_table)
      (unmap_zone 3 4096 0x40000010 0x40001020 one_table)
unmap_zone-ZoneUnmapped_example =
    unmap_zone-ZoneUnmapped 3 4096 0x40000010 0x40001020 one_table one_table-WellMapped
      (omega arith) (omega arith)

-- The boot code has a table at 20480.
abbrev boot : ℕ → ℕ
boot i = if i == 0 then 20487 else 0

boot-IsBoot : IsBoot boot blank_memory
boot-IsBoot = record {
  apart = λ i j n h g. ground arith;
  used = (λ i h. ground arith, (λ i h. ground arith, tt));
  distinct = ((λ e. ground arith, tt), (tt, tt));
  aligned = (omega arith, (omega arith, tt));
}

page_directory_create-WellMapped_example :
    Ensures
      (λ r.
        WellMapped r.0 r.1
        × ((j : ℕ) → r.1.word r.0 j ≡ (if ltb j 64 then boot j else 0))
        × (8192 ∷ 12288 ∷ [] ≡ r.0 ∷ r.1.free_pages))
      (page_directory_create boot blank_memory)
page_directory_create-WellMapped_example =
    page_directory_create-WellMapped boot blank_memory boot-IsBoot (λ e. cc)

-- A table that was added is given back with the directory.
destroys :
    (page_directory_create boot blank_memory >>= λ r.
    map_page r.0 0x40000000 0x5000 6 r.1 >>= λ m. some (page_directory_destroy r.0 m).free_pages)
    ≡ some (8192 ∷ 12288 ∷ [])
unfolding page_directory_create copy_entries map_page ensure_table store clear_page
    page_directory_destroy free_tables
destroys = refl
