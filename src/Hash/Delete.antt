-- ===== src/Hash/Delete.antt =====
-- `hash_del` of kernel/hash.c on a table that stands for a map.
use domin_os.Base.{
  ℕ, ◌+◌, ◌-◌, ◌*◌, ◌^◌, Bool, true, Option, none, some, ◌≡◌, refl, ap, ◌≤◌, ◌<◌, inl, inr, arith,
  Bool-cases,
}
use domin_os.Hash.{deleted, active, HashMap, size_of, is_active, put_slot, hash_update, hash_del}
use domin_os.Hash.Count.{to_nat, count_slots-put}
use domin_os.Hash.Table.{Unbound, hash_lookup-Looked}
use domin_os.Hash.Fill.{changed, changed-IsTable}
use domin_os.Hash.Fit.{deleted-IsFit, old-here, old-other}
use domin_os.Hash.Update.{HasRoom}
use domin_os.Hash.Models.{Models, IsMap, update, Models-del}
use domin_os.Hash.Map.{updated-IsMap}

module _ (fuel : ℕ) (room : ℕ → Bool) (roomy : HasRoom room) (map : HashMap)
    (f : ℕ → Option ℕ) where
  module _ (key : ℕ) (w : IsMap map f) (small : size_of map < 2 ^ 29)
      (l : 2 * size_of map + 7 ≤ fuel) where
    -- A key that is not there is no part of the map.
    Models-absent : Unbound map key → Models map (update map.cmp key none f)
    Models-absent u = record {
      bound = λ q v e. elim (Bool-cases (map.cmp key q)) [
        | inl y ↦ absurd (ground (arith, (rw y at e)))
        | inr y ↦ w.models.bound q v (rw y at e)
      ];
      unbound = λ q e j k v h b a. elim (Bool-cases (map.cmp key q)) [
        | inr y ↦ w.models.unbound q (rw y at e) j k v h b a
        | inl y ↦ elim (Bool-cases (map.cmp k q)) [
          | inr d ↦ d
          | inl d ↦ absurd (
              ground (
                arith,
                u j k v h b a,
                w.table.keying.cmp_trans k q key d (w.table.keying.cmp_symm key q y),
              ))
        ]
      ];
    }

    del_found :
        (r k v h : ℕ)
        → r < size_of map
        → map.table r ≡ active k v h
        → map.cmp k key ≡ true
        → (map' : HashMap) × (hash_update fuel room (changed r deleted map.fill (map.count - 1) map)
            ≡ some (0, map'))
          × (map'.cmp ≡ map.cmp)
          × IsMap map' (update map.cmp key none f)
    del_found r k v h b a same =
        let positive : 1 ≤ map.count = omega (
          arith,
          count_slots-put is_active (size_of map) r deleted map.table b,
          w.table.count_eq,
          ap (λ s. to_nat (is_active s)) a,
        ) in
        updated-IsMap fuel room roomy map f key r (map.count - 1) map.fill deleted none small
          w.large l
          (changed-IsTable map w.table r deleted map.fill (map.count - 1) refl b
            (rw a (omega arith)) (rw a (omega arith)) w.table.room (deleted-IsFit map w.table r))
          (Models-del map w.table f w.models key r (map.count - 1) map.fill deleted b
            (old-here map w.table r key k v h b a same) (old-other map w.table r key k v h b a same)
            refl)

    -- On a table between two calls that stands for a map, with fewer than 2 ^ 29 slots,
    -- memory for any table, and fuel for twice the slots and seven, `hash_del` ends and
    -- returns 0, and the table is again one between two calls: it stands for the map without
    -- the keys that compare equal to the given one, whether there was one or not.
    pub hash_del-IsMap :
        (map' : HashMap) × (hash_del fuel room map key ≡ some (0, map'))
        × (map'.cmp ≡ map.cmp)
        × IsMap map' (update map.cmp key none f)
    unfolding hash_del put_slot
    hash_del-IsMap =
        let (r, e, b, looked) = hash_lookup-Looked map w.table key fuel (omega arith) in
        elim looked [
          | inl (k, v, h, a, same) ↦
              let (m, e', c, q) = del_found r k v h b a same in (m, rw (e, a) e', c, q)
          | inr (a, u, on) ↦ (
            map,
            rw (e, a) refl,
            refl,
            record { table = w.table; loose = w.loose; large = w.large; models = Models-absent u },
          )
        ]
