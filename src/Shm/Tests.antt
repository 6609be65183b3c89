-- ===== src/Shm/Tests.antt =====
-- Runs of the shared pages, and the theorems at small states.
use domin_os.Base.{
  ℕ, ◌+◌, ◌%◌, true, false, ◌&&◌, none, some, [], ◌∷◌, ◌==◌, if◌then◌else◌, ◌≡◌, ◌≤◌, refl, arith,
  Ensures,
}
use domin_os.Word.{word}
use domin_os.Hash.{active, empty}
use domin_os.Hash.Tests.{plenty, new_table, new_table-IsMap, one_key}
use domin_os.Paging.{Memory, page_size}
use domin_os.Paging.Tables.{WellMapped}
use domin_os.Shm.{
  Shm, shared_start, set_slot, allocate_from, allocate_memory, free_memory, shm_create,
}
use domin_os.Shm.Slots.{slot_address, allocate_memory-bounds, free_memory-allocate_memory}
use domin_os.Shm.Pages.{IsShm}
use domin_os.Shm.Share.{Created, shm_create-Created, shm_create-full}

-- Page directories at 4096 and 8192, and three free pages.
abbrev pub blank : Memory
blank = record { word = λ p j. 0; free_pages = 12288 ∷ 16384 ∷ 20480 ∷ [] }

pub blank-WellMapped : (dir : ℕ) → dir ≤ 8192 → WellMapped dir blank
blank-WellMapped dir l = record {
  apart = λ i j n h g. cc;
  not_dir = λ i h. cc;
  unused = (λ i h. cc, (λ i h. cc, (λ i h. cc, tt)));
  not_free = (λ e. ground arith, (λ e. ground arith, (λ e. ground arith, tt)));
  distinct = ((λ e. ground arith, (λ e. ground arith, tt)), ((λ e. ground arith, tt), (tt, tt)));
  aligned = (omega arith, (omega arith, (omega arith, tt)));
}

-- No page is shared.
abbrev no_pages : Shm
no_pages = record {
  virtual_map = λ i. false;
  shp_table = new_table;
  shps = λ p. record { physical_address = 0; virtual_address = 0; refcount = 0; key = 0 };
  next_shp = 1;
  mem = blank;
}

no_pages-IsShm : IsShm no_pages (λ q. none)
no_pages-IsShm = record {
  table = new_table-IsMap;
  next_positive = omega arith;
  pages = λ q p e. cc;
  apart = λ q q' p p' e. cc;
}

-- The page of the key 5, with two references, is in the slot 0.
abbrev one_page : ℕ → Shm
one_page n = record {
  virtual_map = λ i. i == 0;
  shp_table = one_key;
  shps = λ p. record {
    physical_address = 24576;
    virtual_address = shared_start;
    refcount = n;
    key = 5;
  };
  next_shp = 51;
  mem = blank;
}

abbrev copied : ℕ → ℕ
copied key = key + 8

-- What `shm_create` of the key 1, copied to 9, leaves.
abbrev first_page : Shm
first_page = record {
  virtual_map = set_slot 0 true (λ i. false);
  shp_table = record new_table {
    fill = 1;
    count = 1;
    table = λ j. if j == 1 then active 9 1 9 else empty;
  };
  shps = λ q.
      if q == 1
      then record {
        physical_address = 12288;
        virtual_address = shared_start;
        refcount = 1;
        key = 9;
      }
      else record { physical_address = 0; virtual_address = 0; refcount = 0; key = 0 };
  next_shp = 2;
  mem = record {
    word = λ p j.
        if (p == 16384) && (j == 768)
        then 12295
        else if (p == 4096) && (j == 1023)
        then 16391
        else if p == 16384
        then 0
        else 0;
    free_pages = 20480 ∷ [];
  };
}

shm_create-Created_example :
    Ensures
      (λ r.
        (r.0 ≡ slot_address 0)
        × Created 4096 9 0 12288 (16384 ∷ 20480 ∷ []) no_pages (λ q. none) r.1)
      (shm_create 100 plenty copied 4096 1 no_pages)
shm_create-Created_example =
    shm_create-Created 100 plenty (λ n. refl) 4096 no_pages (λ q. none) no_pages-IsShm
      (blank-WellMapped 4096 (omega arith)) (omega arith) (omega arith) copied 1 (λ e. ground arith)
      refl 12288 (16384 ∷ 20480 ∷ []) refl 0 (λ e. cc) (omega arith) refl
      (λ j l. absurd (omega arith))

-- All addresses are used: the physical page at 12288 is lost.
abbrev all_used : Shm
all_used = record no_pages { virtual_map = λ i. true }

all_used-IsShm : IsShm all_used (λ q. none)
all_used-IsShm = record {
  table = new_table-IsMap;
  next_positive = omega arith;
  pages = λ q p e. cc;
  apart = λ q q' p p' e. cc;
}

shm_create-full_example :
    shm_create 100 plenty copied 4096 1 all_used
    ≡ some (0, record all_used { mem = record blank { free_pages = 16384 ∷ 20480 ∷ [] } })
shm_create-full_example =
    shm_create-full 100 plenty (λ n. refl) 4096 all_used (λ q. none) all_used-IsShm
      (blank-WellMapped 4096 (omega arith)) (omega arith) (omega arith) copied 1 (λ e. ground arith)
      refl 12288 (16384 ∷ 20480 ∷ []) refl (λ j l. refl)

allocates : allocate_memory (λ i. i == 0) ≡ some (slot_address 1, set_slot 1 true (λ i. i == 0))
unfolding allocate_from
allocates = refl

allocate_memory-bounds_example :
    (shared_start ≤ slot_address 1)
    × (slot_address 1 + page_size ≤ word)
    × (slot_address 1 % page_size ≡ 0)
allocate_memory-bounds_example =
    allocate_memory-bounds (λ i. i == 0) (set_slot 1 true (λ i. i == 0)) (slot_address 1) allocates

free_memory-allocate_memory_example :
    free_memory (slot_address 1) (set_slot 1 true (λ i. i == 0)) 1 ≡ false
free_memory-allocate_memory_example =
    free_memory-allocate_memory (λ i. i == 0) (set_slot 1 true (λ i. i == 0)) (slot_address 1)
      allocates 1
