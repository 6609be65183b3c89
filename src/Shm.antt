-- ===== src/Shm.antt =====
-- Shared pages: kernel/shm.c. A key is the address of a string, and two keys name one page when the
-- comparison of the table finds their strings equal; `copy` is the address of the copy of a string
-- that shm_create makes with mem_alloc. A `struct shp` is named by a number from 1 on, in the order
-- in which mem_alloc gives them. `dir` is the page directory of the caller. NULL is 0. The
-- result is `none` where a call of the page allocator panics or the fuel of the table runs out.
pub mod Slots
pub mod Zone
pub mod Pages
pub mod Counts
pub mod Share
pub mod Release
pub mod Both
pub mod Tests
use domin_os.Base.{
  ℕ, zero, suc, ◌+◌, ◌-◌, ◌*◌, ◌/◌, ◌%◌, ◌^◌, Bool, true, false, Option, none, some, List, [], ◌∷◌,
  ◌==◌, if◌then◌else◌, ◌>>=◌,
}
use domin_os.Word.{word, sub32}
use domin_os.Hash.{HashMap, hash_isset, hash_get, hash_set, hash_del}
use domin_os.Paging.{Memory, page_size, map_zone, unmap_zone}

abbrev pub page_max : ℕ
page_max = 256

abbrev pub shared_start : ℕ
shared_start = 0xfff00000

pub record Shp : Type 0 where
  pub physical_address : ℕ
  pub virtual_address : ℕ
  pub refcount : ℕ
  pub key : ℕ

pub record Shm : Type 0 where
  pub virtual_map : ℕ → Bool
  pub shp_table : HashMap
  pub shps : ℕ → Shp
  pub next_shp : ℕ
  pub mem : Memory

abbrev pub set_slot : ℕ → Bool → (ℕ → Bool) → ℕ → Bool
set_slot i b virtual_map j = if j == i then b else virtual_map j

-- The loop of `allocate_memory`, for the `n` slots from `i` on.
unfoldable pub allocate_from : ℕ → ℕ → (ℕ → Bool) → Option (ℕ × (ℕ → Bool))
allocate_from zero i virtual_map = none
allocate_from (suc n) i virtual_map =
    let rest = allocate_from n (suc i) virtual_map in
    if virtual_map i then rest else some (shared_start + page_size * i, set_slot i true virtual_map)

abbrev pub allocate_memory : (ℕ → Bool) → Option (ℕ × (ℕ → Bool))
allocate_memory virtual_map = allocate_from page_max 0 virtual_map

abbrev pub free_memory : ℕ → (ℕ → Bool) → ℕ → Bool
free_memory addr virtual_map = set_slot (sub32 addr shared_start / page_size) false virtual_map

-- `RW | US`.
abbrev pub shared_flags : ℕ
shared_flags = 6

unfoldable pub map_shared : ℕ → ℕ → ℕ → Memory → Option Memory
map_shared dir virtual physical mem =
    map_zone 3 dir virtual (virtual + page_size - 1) physical (physical + page_size - 1)
      shared_flags mem

abbrev pub set_shp : ℕ → Shp → (ℕ → Shp) → ℕ → Shp
set_shp p s shps q = if q == p then s else shps q

-- `shm_create` from the new `struct shp` on.
unfoldable pub share_page : ℕ → (ℕ → Bool) → ℕ → ℕ → ℕ → ℕ → Shm → Option (ℕ × Shm)
share_page fuel room dir key_alloc physical virtual shm = do
  mem1 ← map_shared dir virtual physical shm.mem
  r ← hash_set fuel room shm.shp_table key_alloc shm.next_shp
  some (
    virtual,
    record shm {
      shp_table = r.1;
      shps =
          set_shp shm.next_shp
            (record {
              physical_address = physical;
              virtual_address = virtual;
              refcount = 1;
              key = key_alloc;
            })
            shm.shps;
      next_shp = shm.next_shp + 1;
      mem = mem1;
    },
  )

-- `shm_create` from its call of `allocate_memory` on, with the physical page `p`.
unfoldable pub reserve_page : ℕ → (ℕ → Bool) → ℕ → ℕ → ℕ → List ℕ → Shm → Option (ℕ × Shm)
reserve_page fuel room dir key_alloc p ps shm =
    let left = record shm.mem { free_pages = ps } in
    elim (allocate_memory shm.virtual_map) [
      | none ↦ some (0, record shm { mem = left })
      | some (v, slots) ↦
          share_page fuel room dir key_alloc p v (record shm { virtual_map = slots; mem = left })
    ]

-- `shm_create` from its call of `alloc_physical_page` on.
unfoldable pub create_page : ℕ → (ℕ → Bool) → ℕ → ℕ → Shm → Option (ℕ × Shm)
create_page fuel room dir key_alloc shm = elim shm.mem.free_pages [
  | [] ↦ none
  | p ∷ ps ↦ reserve_page fuel room dir key_alloc p ps shm
]

unfoldable pub shm_create : ℕ → (ℕ → Bool) → (ℕ → ℕ) → ℕ → ℕ → Shm → Option (ℕ × Shm)
shm_create fuel room copy dir key shm = if key == 0 then some (0, shm) else do
  b ← hash_isset fuel shm.shp_table (copy key)
  if b then some (0, shm) else create_page fuel room dir (copy key) shm

-- `shm_acquire` and `shm_release` once the page is found.
unfoldable pub acquire_page : ℕ → ℕ → Shm → Option (ℕ × Shm)
acquire_page dir p shm =
    let s = shm.shps p in
    do
      mem1 ← map_shared dir s.virtual_address s.physical_address shm.mem
      some (
        s.virtual_address,
        record shm {
          shps = set_shp p (record s { refcount = (s.refcount + 1) % 2 ^ 64 }) shm.shps;
          mem = mem1;
        },
      )

unfoldable pub shm_acquire : ℕ → ℕ → ℕ → Shm → Option (ℕ × Shm)
shm_acquire fuel dir key shm = hash_get fuel shm.shp_table key 0 >>= λ p.
    if p == 0 then some (0, shm) else acquire_page dir p shm

-- The page has no more references.
unfoldable pub drop_page : ℕ → (ℕ → Bool) → ℕ → ℕ → Memory → Shm → Option Shm
drop_page fuel room key p mem1 shm =
    let s = shm.shps p in
    hash_del fuel room shm.shp_table key >>= λ r. some (record shm {
      shp_table = r.1;
      virtual_map = free_memory s.virtual_address shm.virtual_map;
      mem = record mem1 { free_pages = s.physical_address ∷ mem1.free_pages };
    })

unfoldable pub release_page : ℕ → (ℕ → Bool) → ℕ → ℕ → ℕ → Shm → Option Shm
release_page fuel room dir key p shm =
    let s = shm.shps p in
    let count = (s.refcount + (2 ^ 64 - 1)) % 2 ^ 64 in
    unmap_zone 3 dir s.virtual_address (s.virtual_address + page_size - 1) shm.mem >>= λ mem1.
    if count == 0
    then drop_page fuel room key p mem1 shm
    else some (record shm { shps = set_shp p (record s { refcount = count }) shm.shps; mem = mem1 })

unfoldable pub shm_release : ℕ → (ℕ → Bool) → ℕ → ℕ → Shm → Option Shm
shm_release fuel room dir key shm = hash_get fuel shm.shp_table key 0 >>= λ p.
    if p == 0 then some shm else release_page fuel room dir key p shm
