-- ===== src/Hash/Map.antt =====
-- `hash_get`, `hash_isset` and `hash_init` of kernel/hash.c on a table that stands for a map.
use domin_os.Base.{
  ℕ, ◌+◌, ◌*◌, ◌^◌, Bool, true, false, Option, none, some, ◌≡◌, refl, subst, ◌≤◌, ◌<◌, ◌⊎◌, inl,
  inr, arith,
}
use domin_os.Hash.{
  Slot, empty, deleted, active, HashMap, size_of, is_active, value_or, put_slot, hash_initialize,
  hash_minsize, hash_update, hash_init, hash_isset, hash_get,
}
use domin_os.Hash.Cycle.{eight}
use domin_os.Hash.Table.{IsKeying, IsTable, hash_lookup-Looked}
use domin_os.Hash.Fill.{changed}
use domin_os.Hash.Update.{HasRoom, blank_table, blank_table-IsTable, hash_update-IsUpdated}
use domin_os.Hash.Models.{
  Models, IsMap, update, value_at, found_value, found_none, IsUpdated-Models,
}

abbrev pub is_bound : Option ℕ → Bool
is_bound none = false
is_bound (some v) = true

pub inactive : (s : Slot) → is_active s ≡ false → (s ≡ empty) ⊎ (s ≡ deleted)
inactive empty e = inl refl
inactive deleted e = inr refl
inactive (active k v h) e = cc

value_or-inactive : (s : Slot) (d : ℕ) → is_active s ≡ false → value_or s d ≡ d
value_or-inactive s d e = elim (inactive s e) [ inl x ↦ rw x refl | inr x ↦ rw x refl ]

-- On a table between two calls that stands for a map, with fuel for the slots and seven,
-- `hash_get` ends and returns the value that the map has for the key, or the default value if it
-- has none.
pub hash_get-IsMap :
    (fuel : ℕ) (map : HashMap) (f : ℕ → Option ℕ) (key default_value : ℕ)
    → IsMap map f
    → size_of map + 7 ≤ fuel
    → hash_get fuel map key default_value ≡ some (value_at (f key) default_value)
unfolding hash_get
hash_get-IsMap fuel map f key d w l =
    let (r, e, b, looked) = hash_lookup-Looked map w.table key fuel l in
    elim looked [
      | inl (k, v, h, a, same) ↦
          rw (e, a, found_value map w.table f w.models key r k v h b a same) refl
      | inr (a, u, on) ↦
          rw (e, value_or-inactive (map.table r) d a, found_none map w.table f w.models key u) refl
    ]

pub hash_isset-IsMap :
    (fuel : ℕ) (map : HashMap) (f : ℕ → Option ℕ) (key : ℕ)
    → IsMap map f
    → size_of map + 7 ≤ fuel
    → hash_isset fuel map key ≡ some (is_bound (f key))
unfolding hash_isset
hash_isset-IsMap fuel map f key w l =
    let (r, e, b, looked) = hash_lookup-Looked map w.table key fuel l in
    elim looked [
      | inl (k, v, h, a, same) ↦
          rw (e, a, found_value map w.table f w.models key r k v h b a same) refl
      | inr (a, u, on) ↦ rw (e, a, found_none map w.table f w.models key u) refl
    ]

module _ (fuel : ℕ) (room : ℕ → Bool) (roomy : HasRoom room) (map : HashMap)
    (f : ℕ → Option ℕ) where
  -- What follows the change of a slot.
  module _ (key r c n : ℕ) (s : Slot) (o : Option ℕ) (small : size_of map < 2 ^ 29)
      (large : 8 ≤ size_of map) (l : 2 * size_of map + 7 ≤ fuel) where
    pub updated-IsMap :
        IsTable (changed r s n c map)
        → Models (changed r s n c map) (update map.cmp key o f)
        → (map' : HashMap) × (hash_update fuel room (changed r s n c map) ≡ some (0, map'))
          × (map'.cmp ≡ map.cmp)
          × IsMap map' (update map.cmp key o f)
    unfolding put_slot
    updated-IsMap w m =
        let (map', e, u) =
          hash_update-IsUpdated fuel room roomy (changed r s n c map) w small large l in
        (
          map',
          e,
          u.same_cmp,
          record {
            table = u.table;
            loose = u.loose;
            large = u.large;
            models = IsUpdated-Models (changed r s n c map) map' (update map.cmp key o f) u m;
          },
        )

-- If there is memory for 8 slots and the functions are fit for a table, `hash_init` returns 0
-- and a table of 8 slots with these functions that stands for the map without keys.
pub hash_init-IsMap :
    (room : ℕ → Bool) (hfunc : ℕ → ℕ) (cmp : ℕ → ℕ → Bool) (blank : HashMap)
    → room hash_minsize ≡ true
    → IsKeying hfunc cmp
    → (map : HashMap) × (hash_init room hfunc cmp blank ≡ (0, map))
      × (map.cmp ≡ cmp)
      × (map.hfunc ≡ hfunc)
      × (size_of map ≡ 8)
      × IsMap map (λ key. none)
unfolding hash_init hash_initialize
hash_init-IsMap room hfunc cmp blank roomy keying =
    let map = blank_table 8 (record blank { hfunc = hfunc; cmp = cmp }) in
    (
      map,
      rw (hash_init, hash_initialize, roomy) refl,
      refl,
      refl,
      refl,
      record {
        table =
            subst (λ n. IsTable (blank_table n map)) eight
              (blank_table-IsTable map 3 keying (omega arith));
        loose = omega arith;
        large = omega arith;
        models = record { bound = λ q v e. cc; unbound = λ q e j k v h b a. cc };
      },
    )
