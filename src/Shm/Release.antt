-- ===== src/Shm/Release.antt =====
-- `shm_acquire` and `shm_release` of kernel/shm.c.
use domin_os.Base.{
  ℕ, ◌+◌, ◌-◌, ◌*◌, ◌%◌, ◌^◌, Bool, false, Option, none, some, [], ◌==◌, ◌≡◌, refl, ap, ◌∙◌, ◌≢◌,
  ◌≤◌, ◌<◌, arith, Ensures, Ensures-bind,
}
use domin_os.Hash.{size_of, hash_get}
use domin_os.Hash.Update.{HasRoom}
use domin_os.Hash.Models.{value_at}
use domin_os.Hash.Map.{hash_get-IsMap}
use domin_os.Paging.{unmap_page}
use domin_os.Paging.Tables.{WellMapped, Mapped, unmap_page-Mapped}
use domin_os.Shm.{Shm, acquire_page, shm_acquire, release_page, shm_release}
use domin_os.Shm.Zone.{map_shared-Mapped, unmap_zone-page}
use domin_os.Shm.Pages.{IsPage, IsShm}
use domin_os.Shm.Counts.{count_here, with_count-IsShm}

module _ (fuel : ℕ) (room : ℕ → Bool) (roomy : HasRoom room) (dir : ℕ) (shm : Shm)
    (f : ℕ → Option ℕ) (w : IsShm shm f) (formed : WellMapped dir shm.mem)
    (small : size_of shm.shp_table < 2 ^ 29) (enough : 2 * size_of shm.shp_table + 7 ≤ fuel) where
  get :
      (key : ℕ) (o : Option ℕ) → f key ≡ o → hash_get fuel shm.shp_table key 0 ≡ some (value_at o 0)
  get key o e =
      hash_get-IsMap fuel shm.shp_table f key 0 w.table (omega arith)
      ∙ ap (λ x. some (value_at x 0)) e

  module _ (key : ℕ) where
    pub shm_acquire-unknown : f key ≡ none → shm_acquire fuel dir key shm ≡ some (0, shm)
    unfolding shm_acquire
    shm_acquire-unknown e = rw (get key none e) refl

    module _ (p : ℕ) (e : f key ≡ some p) where
      this : IsPage shm p
      this = w.pages key p e

      not_zero : (p == 0) ≡ false
      not_zero = ground (arith, this.positive)

      this_aligned : (shm.shps p).virtual_address % 4096 ≡ 0
      this_aligned = rw this.at (omega arith)

      -- From a well-formed state with well-formed tables, a free page and enough fuel,
      -- `shm_acquire` of a key that is bound, while its count is not at its limit, ends
      -- and returns the address of the page, which has one more reference and is mapped
      -- there for the caller; no other page of the directory is changed and the state is
      -- well formed.
      pub shm_acquire-Counted :
          shm.mem.free_pages ≢ []
          → (shm.shps p).refcount + 1 < 2 ^ 64
          → Ensures
              (λ r.
                (r.0 ≡ (shm.shps p).virtual_address)
                × IsShm r.1 f
                × (r.1.shps p ≡ record (shm.shps p) { refcount = (shm.shps p).refcount + 1 })
                × Mapped dir
                    (shm.shps p).virtual_address
                    (some ((shm.shps p).physical_address + 7))
                    shm.mem
                    r.1.mem)
              (shm_acquire fuel dir key shm)
      unfolding shm_acquire acquire_page
      shm_acquire-Counted free room =
          let s = shm.shps p in
          let count : (s.refcount + 1) % 2 ^ 64 ≡ s.refcount + 1 = omega arith in
          rw (get key (some p) e, not_zero, count)
            (Ensures-bind (Mapped dir s.virtual_address (some (s.physical_address + 7)) shm.mem) _ _
              _
              (map_shared-Mapped dir s.virtual_address s.physical_address shm.mem formed
                this_aligned this.aligned free)
              λ mem1 q. (
                refl,
                with_count-IsShm shm f w p (s.refcount + 1) mem1 (omega arith) room,
                count_here shm f w p (s.refcount + 1) mem1,
                q,
              ))

      -- From a well-formed state with well-formed tables and enough fuel, `shm_release` of
      -- a key whose page has more than one reference ends: the page has one less and is
      -- not mapped for the caller any more, no other page of the directory is changed, and
      -- the state is well formed.
      pub shm_release-Counted :
          1 < (shm.shps p).refcount
          → Ensures
              (λ shm'.
                IsShm shm' f
                × (shm'.shps p ≡ record (shm.shps p) { refcount = (shm.shps p).refcount - 1 })
                × Mapped dir (shm.shps p).virtual_address none shm.mem shm'.mem)
              (shm_release fuel room dir key shm)
      unfolding shm_release release_page
      shm_release-Counted more =
          let s = shm.shps p in
          let c : (s.refcount + (2 ^ 64 - 1)) % 2 ^ 64 ≡ s.refcount - 1 =
            omega (arith, this.countable) in
          let no_end : (s.refcount - 1 == 0) ≡ false = ground arith in
          let mem1 = unmap_page dir s.virtual_address shm.mem in
          rw
            (
              get key (some p) e,
              not_zero,
              unmap_zone-page dir s.virtual_address shm.mem this_aligned,
              c,
              no_end,
            )
            (
              with_count-IsShm shm f w p (s.refcount - 1) mem1 (omega arith)
                  (omega (arith, this.countable)),
              count_here shm f w p (s.refcount - 1) mem1,
              unmap_page-Mapped dir s.virtual_address shm.mem formed,
            )
