-- ===== src/Hash/Set.antt =====
-- `hash_set` of kernel/hash.c on a table that stands for a map.
use domin_os.Base.{
  ℕ, ◌+◌, ◌*◌, ◌^◌, Bool, true, false, Option, some, ◌≡◌, refl, ◌≤◌, ◌<◌, inl, inr, arith,
}
use domin_os.Hash.{active, HashMap, size_of, is_active, put_slot, set_at, hash_set}
use domin_os.Hash.Table.{Unbound, OnPath, hash_lookup-Looked}
use domin_os.Hash.Fill.{changed, changed-IsTable}
use domin_os.Hash.Fit.{new-IsFit, old-IsFit, old-here, old-other}
use domin_os.Hash.Update.{HasRoom}
use domin_os.Hash.Models.{Models, IsMap, update, Models-set}
use domin_os.Hash.Map.{inactive, updated-IsMap}

module _ (fuel : ℕ) (room : ℕ → Bool) (roomy : HasRoom room) (map : HashMap)
    (f : ℕ → Option ℕ) where
  module _ (key value : ℕ) (w : IsMap map f) (small : size_of map < 2 ^ 29)
      (l : 2 * size_of map + 7 ≤ fuel) where
    abbrev IsBoundTo : Option (ℕ × HashMap) → Type 0
    IsBoundTo result =
        (map' : HashMap) × (result ≡ some (0, map'))
        × (map'.cmp ≡ map.cmp)
        × IsMap map' (update map.cmp key (some value) f)

    -- The key is there.
    set_old :
        (r k v h : ℕ)
        → r < size_of map
        → map.table r ≡ active k v h
        → map.cmp k key ≡ true
        → IsBoundTo (set_at fuel room r key value (active k v h) map)
    unfolding set_at put_slot
    set_old r k v h b a same =
        let s = active k value h in
        (
          put_slot r s map,
          refl,
          refl,
          record {
            table =
                changed-IsTable map w.table r s map.fill map.count refl b (rw a (omega arith))
                  (rw a refl) w.table.room (old-IsFit map w.table r k v value h b a);
            loose = w.loose;
            large = w.large;
            models =
                Models-set map w.table f w.models key r map.count map.fill s b
                  (old-here map w.table r key k v h b a same)
                  (old-other map w.table r key k v h b a same) k value h refl same;
          },
        )

    set_new-Models :
        (r : ℕ)
        → r < size_of map
        → is_active (map.table r) ≡ false
        → Unbound map key
        → (c n : ℕ)
        → Models
            (changed r (active key value (map.hfunc key)) n c map)
            (update map.cmp key (some value) f)
    set_new-Models r b a u c n =
        Models-set map w.table f w.models key r c n (active key value (map.hfunc key)) b
          (λ k v h e. absurd (ground (arith, a, e))) (λ j k v h b' d e. u j k v h b' e) key value
          (map.hfunc key) refl (w.table.keying.cmp_refl key)

    -- The key is not there.
    set_new :
        (r : ℕ)
        → r < size_of map
        → is_active (map.table r) ≡ false
        → Unbound map key
        → OnPath map key r
        → IsBoundTo (set_at fuel room r key value (map.table r) map)
    unfolding set_at put_slot
    set_new r b a u on =
        let s = active key value (map.hfunc key) in
        let fit = new-IsFit map w.table r key value u on in
        elim (inactive (map.table r) a) [
          | inl e ↦
              let (m, e', c, q) =
                updated-IsMap fuel room roomy map f key r (map.count + 1) (map.fill + 1) s
                  (some value) small w.large l
                  (changed-IsTable map w.table r s (map.fill + 1) (map.count + 1) refl b
                    (rw e (omega arith)) (rw e (omega arith)) (omega (arith, w.loose, w.large)) fit)
                  (set_new-Models r b a u (map.count + 1) (map.fill + 1)) in
              (m, rw e e', c, q)
          | inr e ↦
              let (m, e', c, q) =
                updated-IsMap fuel room roomy map f key r (map.count + 1) map.fill s (some value)
                  small w.large l
                  (changed-IsTable map w.table r s map.fill (map.count + 1) refl b
                    (rw e (omega arith)) (rw e (omega arith)) w.table.room fit)
                  (set_new-Models r b a u (map.count + 1) map.fill) in
              (m, rw e e', c, q)
        ]

    -- On a table between two calls that stands for a map, with fewer than 2 ^ 29 slots,
    -- memory for any table, and fuel for twice the slots and seven, `hash_set` ends and
    -- returns 0, and the table is again one between two calls, with the same comparison: it
    -- stands for the map in which every key that compares equal to the given one has the
    -- value.
    pub hash_set-IsMap :
        (map' : HashMap) × (hash_set fuel room map key value ≡ some (0, map'))
        × (map'.cmp ≡ map.cmp)
        × IsMap map' (update map.cmp key (some value) f)
    unfolding hash_set
    hash_set-IsMap =
        let (r, e, b, looked) = hash_lookup-Looked map w.table key fuel (omega arith) in
        elim looked [
          | inl (k, v, h, a, same) ↦
              let (m, e', c, q) = set_old r k v h b a same in (m, rw (e, a) e', c, q)
          | inr (a, u, on) ↦ let (m, e', c, q) = set_new r b a u on in (m, rw e e', c, q)
        ]
