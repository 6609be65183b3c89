-- ===== src/Shm/Zone.antt =====
-- The one page that kernel/shm.c maps and unmaps.
use domin_os.Base.{
  ℕ, ◌+◌, ◌-◌, ◌%◌, true, false, some, [], ◌==◌, leb, ◌≡◌, refl, ◌≢◌, inl, inr, arith, Bool-cases,
  Ensures, Ensures-bind,
}
use domin_os.Paging.{
  Memory, page_size, is_present, pd_index, store, align, map_from, map_zone, unmap_page, unmap_from,
  unmap_zone,
}
use domin_os.Paging.Tables.{WellMapped, Mapped, map_page-Mapped}
use domin_os.Shm.{shared_flags, map_shared}

align_start : (v : ℕ) → v % 4096 ≡ 0 → align v ≡ v
align_start v a = omega arith

align_end : (v : ℕ) → v % 4096 ≡ 0 → align (v + page_size - 1) ≡ v
align_end v a = omega arith

pub map_shared-Mapped :
    (dir virtual physical : ℕ) (mem : Memory)
    → WellMapped dir mem
    → virtual % 4096 ≡ 0
    → physical % 4096 ≡ 0
    → mem.free_pages ≢ []
    → Ensures (Mapped dir virtual (some (physical + 7)) mem) (map_shared dir virtual physical mem)
unfolding map_shared map_zone map_from
map_shared-Mapped dir v p mem w a b free =
    let same : (v + page_size - 1 - v == p + page_size - 1 - p) ≡ true = ground arith in
    let go : leb v v ≡ true = ground arith in
    let stop : leb (v + page_size) v ≡ false = ground arith in
    rw (same, align_start v a, align_end v a, align_start p b, go)
      (Ensures-bind (Mapped dir v (some (p + 7)) mem) _ _ _
        (map_page-Mapped dir v p shared_flags mem w (omega arith) b free) λ mem1 m. rw stop m)

pub unmap_zone-page :
    (dir virtual : ℕ) (mem : Memory)
    → virtual % 4096 ≡ 0
    → unmap_zone 3 dir virtual (virtual + page_size - 1) mem ≡ some (unmap_page dir virtual mem)
unfolding unmap_zone unmap_from
unmap_zone-page dir v mem a =
    let go : leb v v ≡ true = ground arith in
    let stop : leb (v + page_size) v ≡ false = ground arith in
    rw (align_start v a, align_end v a, go, stop) refl

pub unmap_page-free_pages :
    (dir virtual : ℕ) (mem : Memory) → (unmap_page dir virtual mem).free_pages ≡ mem.free_pages
unfolding unmap_page store
unmap_page-free_pages dir v mem = elim (Bool-cases (is_present (mem.word dir (pd_index v)))) [
  | inl e ↦ rw e refl
  | inr e ↦ rw e refl
]
