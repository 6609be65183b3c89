-- ===== src/Hash/Update.antt =====
-- `hash_update` of kernel/hash.c, and the table that it leaves.
use domin_os.Base.{
  ℕ, suc, ◌+◌, ◌-◌, ◌*◌, ◌/◌, ◌%◌, ◌^◌, Bool, true, false, ◌&&◌, some, ◌≡◌, refl, sym, ap, subst,
  ◌∙◌, ◌≤◌, ◌<◌, inl, inr, arith, Bool-cases,
}
use domin_os.Word.{word, int_lt}
use domin_os.Hash.{
  empty, active, HashMap, size_of, long_le, hash_minsize, hash_initialize, is_active, hash_copy,
  resize, hash_update,
}
use domin_os.Hash.Cycle.{two_to, two_to_pos, two_to-small, two_to-half, two_to-large}
use domin_os.Hash.Count.{is_filled, count_slots, count_slots-zero, count_slots-sub}
use domin_os.Hash.Table.{IsKeying, IsTable}
use domin_os.Hash.Copy.{HasCopied, hash_copy-HasCopied}

-- There is memory for a table of any size.
abbrev pub HasRoom : (ℕ → Bool) → Type 0
HasRoom room = (n : ℕ) → room n ≡ true

-- The second table holds what the first does, and a third of its slots are empty.
pub record IsUpdated (map map' : HashMap) : Type 0 where
  pub table : IsTable map'
  pub loose : 3 * map'.fill < 2 * size_of map'
  pub large : 8 ≤ size_of map'
  pub grown : size_of map' ≤ 2 * size_of map
  pub same_hfunc : map'.hfunc ≡ map.hfunc
  pub same_cmp : map'.cmp ≡ map.cmp
  pub kept :
      (i k v h : ℕ)
      → i < size_of map
      → map.table i ≡ active k v h
      → (j : ℕ) × (j < size_of map') × (map'.table j ≡ active k v h)
  pub only :
      (j k v h : ℕ)
      → j < size_of map'
      → map'.table j ≡ active k v h
      → (i : ℕ) × (i < size_of map) × (map.table i ≡ active k v h)

abbrev pub blank_table : ℕ → HashMap → HashMap
blank_table size map = record map { fill = 0; count = 0; mask = size - 1; table = λ i. empty }

pub blank_table-IsTable :
    (map : HashMap) (log : ℕ)
    → IsKeying map.hfunc map.cmp
    → log ≤ 29
    → IsTable (blank_table (two_to log) map)
blank_table-IsTable map log keying l =
    let size : two_to log - 1 + 1 ≡ two_to log = omega (arith, two_to_pos log) in
    record {
      keying = keying;
      log = log;
      sized = size;
      small = l;
      fill_eq = sym (count_slots-zero is_filled (two_to log - 1 + 1) (λ i. empty) (λ i. refl));
      count_eq = sym (count_slots-zero is_active (two_to log - 1 + 1) (λ i. empty) (λ i. refl));
      room = omega arith;
      hashed = λ j k v h l e. cc;
      placed = λ j k v h l e. cc;
      unique = λ i j k v h k' v' h' l l' e e'. cc;
    }

-- What a smaller or a larger table is made from.
module _ (fuel : ℕ) (room : ℕ → Bool) (roomy : HasRoom room) (map : HashMap) (w : IsTable map) where
  -- The active slots are filled.
  count-le-fill : map.count ≤ map.fill
  count-le-fill =
      let s = count_slots-sub (size_of map) map.table in omega (arith, s, w.count_eq, w.fill_eq)

  resize-copy :
      (n : ℕ) (m : HashMap)
      → hash_copy fuel (size_of map) 0 map.table (blank_table n map) ≡ some m
      → resize fuel room n map ≡ some (0, m)
  unfolding resize hash_initialize
  resize-copy n m e = rw (roomy n, e, resize, hash_initialize) refl

  resize-IsUpdated :
      (log : ℕ)
      → log ≤ 29
      → 3 * map.count < 2 * two_to log
      → map.count < two_to log
      → 8 ≤ two_to log
      → two_to log ≤ 2 * size_of map
      → two_to log + 7 ≤ fuel
      → (map' : HashMap) × (resize fuel room (two_to log) map ≡ some (0, map')) × IsUpdated map map'
  unfolding count_slots
  resize-IsUpdated log l loose fits large grown f =
      let b = blank_table-IsTable map log w.keying l in
      let start : HasCopied map 0 (blank_table (two_to log) map) = record {
        table = b;
        same_hfunc = refl;
        same_cmp = refl;
        filled = refl;
        counted = refl;
        clean = λ j l. refl;
        kept = λ i k v h l e. absurd (omega arith);
        only = λ j k v h l e. cc;
      } in
      let (map', e, m, c) =
        hash_copy-HasCopied fuel map w (size_of map) 0 (blank_table (two_to log) map) (omega arith)
          start (omega arith) (omega arith) in
      (
        map',
        resize-copy (two_to log) map' e,
        record {
          table = c.table;
          loose = omega (arith, c.filled, w.count_eq, m);
          large = omega (arith, m);
          grown = omega (arith, m);
          same_hfunc = c.same_hfunc;
          same_cmp = c.same_cmp;
          kept = c.kept;
          only = c.only;
        },
      )

  same-IsUpdated : 3 * map.fill < 2 * size_of map → 8 ≤ size_of map → IsUpdated map map
  same-IsUpdated loose large = record {
    table = w;
    loose = loose;
    large = large;
    grown = omega arith;
    same_hfunc = refl;
    same_cmp = refl;
    kept = λ i k v h l e. (i, l, e);
    only = λ j k v h l e. (j, l, e);
  }

  resize-sized :
      (n log : ℕ)
      → n ≡ two_to log
      → log ≤ 29
      → 3 * map.count < 2 * n
      → map.count < n
      → 8 ≤ n
      → n ≤ 2 * size_of map
      → n + 7 ≤ fuel
      → (map' : HashMap) × (resize fuel room n map ≡ some (0, map')) × IsUpdated map map'
  resize-sized n log e l loose fits large grown f =
      let (m, r, u) =
        resize-IsUpdated log l (omega arith) (omega arith) (omega arith) (omega arith)
          (omega arith) in
      (m, ap (λ x. resize fuel room x map) e ∙ r, u)

  -- At most 2 ^ 28 slots: one more doubling still fits in an `int`.
  module _ (l : size_of map < 2 ^ 29) (large : 8 ≤ size_of map)
      (f : 2 * size_of map + 7 ≤ fuel) where
    abbrev crowded : Bool
    crowded = long_le (2 * size_of map % word) (3 * map.fill % word)

    abbrev sparse : Bool
    sparse = int_lt hash_minsize (size_of map) && long_le (4 * map.count % word) (size_of map)

    hash_update-grow :
        crowded ≡ true → hash_update fuel room map ≡ resize fuel room (2 * size_of map) map
    unfolding hash_update
    hash_update-grow a =
        let no : int_lt (2 * size_of map % word) (size_of map) ≡ false = ground arith in
        let same : 2 * size_of map % word ≡ 2 * size_of map = omega arith in rw (a, no, same) refl

    grown_table :
        (map' : HashMap) × (resize fuel room (2 * size_of map) map ≡ some (0, map'))
        × IsUpdated map map'
    unfolding two_to
    grown_table =
        let small = two_to-small w.log (subst (λ x. x < 2 ^ 29) w.sized l) in
        resize-sized (2 * size_of map) (suc w.log) (omega (arith, w.sized)) (omega (arith, small))
          (omega (arith, w.room, count-le-fill)) (omega (arith, w.room, count-le-fill))
          (omega arith) (omega arith) (omega arith)

    shrunk_table :
        8 < size_of map
        → 4 * map.count ≤ size_of map
        → (map' : HashMap) × (resize fuel room (size_of map / 2) map ≡ some (0, map'))
          × IsUpdated map map'
    unfolding two_to
    shrunk_table more few =
        let (k, even, below) = two_to-half (size_of map) w.log w.sized more in
        resize-sized (size_of map / 2) k (omega (arith, even)) (omega (arith, w.small, below))
          (omega (arith, even)) (omega (arith, even))
          (omega (arith, even, two_to-large k (omega (arith, even)))) (omega (arith, even))
          (omega (arith, even))

    pub hash_update-IsUpdated :
        (map' : HashMap) × (hash_update fuel room map ≡ some (0, map')) × IsUpdated map map'
    unfolding hash_update
    hash_update-IsUpdated = elim (Bool-cases crowded) [
      | inl a ↦ let (m, e, u) = grown_table in (m, hash_update-grow a ∙ e, u)
      | inr a ↦ elim (Bool-cases sparse) [
        | inl b ↦
            let (m, e, u) = shrunk_table (ground arith) (ground (arith, count-le-fill, w.room)) in
            (m, rw (a, b) e, u)
        | inr b ↦ (map, rw (a, b) refl, same-IsUpdated (ground (arith, w.room)) large)
      ]
    ]
