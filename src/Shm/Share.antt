-- ===== src/Shm/Share.antt =====
-- `shm_create` of kernel/shm.c.
use domin_os.Base.{
  ℕ, ◌+◌, ◌*◌, ◌%◌, ◌^◌, Bool, true, false, Option, none, some, List, [], ◌∷◌, ◌==◌, ◌≡◌, refl, ap,
  ◌∙◌, ◌≢◌, ◌≤◌, ◌<◌, arith, Ensures, Ensures-bind,
}
use domin_os.Hash.{size_of, hash_isset}
use domin_os.Hash.Update.{HasRoom}
use domin_os.Hash.Models.{update}
use domin_os.Hash.Map.{is_bound, hash_isset-IsMap}
use domin_os.Hash.Set.{hash_set-IsMap}
use domin_os.Paging.{Memory}
use domin_os.Paging.Tables.{WellMapped, Mapped}
use domin_os.Shm.{Shm, page_max, set_slot, share_page, reserve_page, create_page, shm_create}
use domin_os.Shm.Slots.{slot_address, allocate_memory-lowest, allocate_memory-full}
use domin_os.Shm.Zone.{map_shared-Mapped}
use domin_os.Shm.Pages.{IsShm, new_here, with_page-IsShm}

-- What `shm_create` leaves: a page with one reference, in the slot `s`, on the physical page `p`.
pub record Created (dir key s p : ℕ) (ps : List ℕ) (shm : Shm) (f : ℕ → Option ℕ) (shm' : Shm)
    : Type 0 where
  pub formed : IsShm shm' (update shm.shp_table.cmp key (some shm.next_shp) f)
  pub page :
      shm'.shps shm.next_shp
      ≡ record { physical_address = p; virtual_address = slot_address s; refcount = 1; key = key }
  pub mapped :
      Mapped dir (slot_address s) (some (p + 7)) (record shm.mem { free_pages = ps }) shm'.mem
  pub slots : shm'.virtual_map ≡ set_slot s true shm.virtual_map
  pub same_cmp : shm'.shp_table.cmp ≡ shm.shp_table.cmp

module _ (fuel : ℕ) (room : ℕ → Bool) (roomy : HasRoom room) (dir : ℕ) (shm : Shm)
    (f : ℕ → Option ℕ) (w : IsShm shm f) (formed : WellMapped dir shm.mem)
    (small : size_of shm.shp_table < 2 ^ 29) (enough : 2 * size_of shm.shp_table + 7 ≤ fuel) where
  isset :
      (key : ℕ) (o : Option ℕ) → f key ≡ o → hash_isset fuel shm.shp_table key ≡ some (is_bound o)
  isset key o e =
      hash_isset-IsMap fuel shm.shp_table f key w.table (omega arith)
      ∙ ap (λ x. some (is_bound x)) e

  module _ (copy : ℕ → ℕ) (key : ℕ) (n : key ≢ 0) where
    not_null : (key == 0) ≡ false
    not_null = ground arith

    pub shm_create-exists :
        (p : ℕ) → f (copy key) ≡ some p → shm_create fuel room copy dir key shm ≡ some (0, shm)
    unfolding shm_create
    shm_create-exists p e = rw (not_null, isset (copy key) (some p) e) refl

    module _ (e : f (copy key) ≡ none) (p : ℕ) (ps : List ℕ)
        (pages : shm.mem.free_pages ≡ p ∷ ps) where
      reserves :
          create_page fuel room dir (copy key) shm ≡ reserve_page fuel room dir (copy key) p ps shm
      unfolding create_page
      reserves =
          ap (λ x. elim x [ [] ↦ none | q ∷ qs ↦ reserve_page fuel room dir (copy key) q qs shm ])
            pages

      -- From a well-formed state in which all 256 addresses are used, `shm_create` of a
      -- key that is not NULL and whose copy is not there returns NULL, and the physical
      -- page that it took is neither free nor bound to a key: nothing else is changed.
      pub shm_create-full :
          ((j : ℕ) → j < page_max → shm.virtual_map j ≡ true)
          → shm_create fuel room copy dir key shm
            ≡ some (0, record shm { mem = record shm.mem { free_pages = ps } })
      unfolding shm_create reserve_page
      shm_create-full all =
          rw
            (
              not_null,
              isset (copy key) none e,
              reserves,
              reserve_page,
              allocate_memory-full shm.virtual_map all,
            )
            refl

      abbrev left : Memory
      left = record shm.mem { free_pages = ps }

      left-WellMapped : WellMapped dir left
      left-WellMapped = record {
        apart = formed.apart;
        not_dir = formed.not_dir;
        unused = (rw pages at formed.unused).1;
        not_free = (rw pages at formed.not_free).1;
        distinct = (rw pages at formed.distinct).1;
        aligned = (rw pages at formed.aligned).1;
      }

      -- From a well-formed state in which the copied key is not there and is not NULL,
      -- with well-formed tables, two free physical pages or more, an unused address and
      -- enough fuel and memory, `shm_create` ends and returns the lowest unused address;
      -- the first free page is mapped there for the caller and no other page of the
      -- directory is changed, the address is used, the key is bound to a page with one
      -- reference, and the state is well formed.
      pub shm_create-Created :
          (s : ℕ)
          → ps ≢ []
          → s < page_max
          → shm.virtual_map s ≡ false
          → ((j : ℕ) → j < s → shm.virtual_map j ≡ true)
          → Ensures
              (λ r. (r.0 ≡ slot_address s) × Created dir (copy key) s p ps shm f r.1)
              (shm_create fuel room copy dir key shm)
      unfolding shm_create reserve_page share_page
      shm_create-Created s more l free lower =
          let (map', r, same, m) =
            hash_set-IsMap fuel room roomy shm.shp_table f (copy key) shm.next_shp w.table small
              enough in
          let whole : p % 4096 ≡ 0 = (rw pages at formed.aligned).0 in
          rw
            (
              not_null,
              isset (copy key) none e,
              reserves,
              reserve_page,
              allocate_memory-lowest shm.virtual_map s l free lower,
            )
            (Ensures-bind (Mapped dir (slot_address s) (some (p + 7)) left) _ _ _
              (map_shared-Mapped dir (slot_address s) p left left-WellMapped (omega arith) whole
                more)
              λ mem1 q. rw r (
                refl,
                record {
                  formed = with_page-IsShm shm f w (copy key) s p map' mem1 l free whole same m;
                  page = new_here shm f w (copy key) s p map' mem1 l free whole same m;
                  mapped = q;
                  slots = refl;
                  same_cmp = same;
                },
              ))
