-- ===== src/Hash/Tests.antt =====
-- Runs of the hash table, and the theorems at small tables.
use domin_os.Base.{
  ℕ, zero, suc, sym, ap, subst, ◌<◌, ◌+◌, Bool, true, false, Option, none, some, List, [], ◌∷◌,
  ◌==◌, ◌>>=◌, ◌≡◌, refl, arith, if◌then◌else◌,
}
use domin_os.Word.{neg}
use domin_os.Hash.{
  empty, active, HashMap, size_of, hash_initialize, lookup_loop, hash_lookup, put_slot, copy_slot,
  hash_copy, resize, hash_update, hash_init, hash_isset, hash_get, set_at, hash_set, hash_del,
  hash_direct_cmp, hash_direct_hfunc, hash_string_hfunc, hash_string_cmp, string_hash, xor, strcmp,
}
use domin_os.Hash.Table.{IsKeying, Looked, hash_lookup-Looked}
use domin_os.Hash.Models.{IsMap, update, value_at}
use domin_os.Hash.Map.{is_bound, hash_get-IsMap, hash_isset-IsMap, hash_init-IsMap}
use domin_os.Hash.Set.{hash_set-IsMap}
use domin_os.Hash.Delete.{hash_del-IsMap}
use domin_os.Hash.Text.{hash_direct-IsKeying, hash_string-IsKeying, IsString}

abbrev pub plenty : ℕ → Bool
plenty n = true

abbrev no_table : HashMap
no_table = record {
  fill = 0;
  count = 0;
  mask = 0;
  table = λ i. empty;
  hfunc = λ key. 0;
  cmp = λ a b. false;
}

abbrev pub new_table : HashMap
new_table = record {
  fill = 0;
  count = 0;
  mask = 7;
  table = λ i. empty;
  hfunc = hash_direct_hfunc;
  cmp = hash_direct_cmp;
}

-- Six keys, one of them put twice: the table grows to 16 slots.
abbrev put_keys : ℕ → List ℕ → HashMap → Option (ℕ × HashMap)
put_keys fuel [] map = some (0, map)
put_keys fuel (k ∷ ks) map = hash_set fuel plenty map k (k + 100) >>= λ r. put_keys fuel ks r.1

grows :
    (put_keys 100 (1 ∷ 9 ∷ 17 ∷ 2 ∷ 9 ∷ 3 ∷ 25 ∷ []) new_table >>= λ r.
    hash_get 100 r.1 17 0 >>= λ v. some (r.1.mask + r.1.count + v))
    ≡ some (15 + 6 + 117)
unfolding hash_set set_at hash_lookup lookup_loop put_slot hash_update resize hash_initialize
    hash_copy copy_slot hash_get
grows = refl

-- A table that cannot grow: the call fails, and the key is there.
fails :
    (hash_set 100 (λ n. false) (record new_table { fill = 5; count = 5 }) 3 33 >>= λ r.
    hash_get 100 r.1 3 0 >>= λ v. some (r.0 + v))
    ≡ some (neg 1 + 33)
unfolding hash_set set_at hash_lookup lookup_loop put_slot hash_update resize hash_initialize
    hash_get
fails = refl

hashes : hash_string_hfunc (97 ∷ 98 ∷ []) ≡ 5860902
unfolding string_hash xor
hashes = refl

compares : hash_string_cmp (97 ∷ 98 ∷ []) (97 ∷ []) ≡ false
unfolding strcmp
compares = refl

abbrev map_of : ℕ × HashMap → HashMap
map_of r = r.1

abbrev map_in : Option (ℕ × HashMap) → HashMap
map_in none = no_table
map_in (some r) = r.1

pub new_table-IsMap : IsMap new_table (λ key. none)
unfolding hash_init hash_initialize
new_table-IsMap =
    let (map, e, c, f, n, w) =
      hash_init-IsMap plenty hash_direct_hfunc hash_direct_cmp no_table refl hash_direct-IsKeying in
    subst (λ m. IsMap m (λ key. none)) (sym (ap map_of e)) w

abbrev pub one_key : HashMap
one_key = record new_table {
  fill = 1;
  count = 1;
  table = λ j. if j == 5 then active 5 50 5 else empty;
}

abbrev pub only_five : ℕ → Option ℕ
only_five = update hash_direct_cmp 5 (some 50) (λ key. none)

hash_set-IsMap_example :
    (map' : HashMap) × (hash_set 100 plenty new_table 5 50 ≡ some (0, map'))
    × (map'.cmp ≡ hash_direct_cmp)
    × IsMap map' (update hash_direct_cmp 5 (some 50) (λ key. none))
hash_set-IsMap_example =
    hash_set-IsMap 100 plenty (λ n. refl) new_table (λ key. none) 5 50 new_table-IsMap (omega arith)
      (omega arith)

pub one_key-IsMap : IsMap one_key only_five
unfolding hash_set set_at hash_lookup lookup_loop put_slot hash_update
one_key-IsMap =
    let (map, e, c, w) =
      hash_set-IsMap 100 plenty (λ n. refl) new_table (λ key. none) 5 50 new_table-IsMap
        (omega arith) (omega arith) in
    subst (λ m. IsMap m only_five) (sym (ap map_in e)) w

-- The key 13 shares the slot of 5, and is not there.
hash_get-IsMap_example : hash_get 15 one_key 13 7 ≡ some (value_at (only_five 13) 7)
hash_get-IsMap_example = hash_get-IsMap 15 one_key only_five 13 7 one_key-IsMap (omega arith)

hash_isset-IsMap_example : hash_isset 15 one_key 5 ≡ some (is_bound (only_five 5))
hash_isset-IsMap_example = hash_isset-IsMap 15 one_key only_five 5 one_key-IsMap (omega arith)

hash_del-IsMap_example :
    (map' : HashMap) × (hash_del 100 plenty one_key 5 ≡ some (0, map'))
    × (map'.cmp ≡ hash_direct_cmp)
    × IsMap map' (update hash_direct_cmp 5 none only_five)
hash_del-IsMap_example =
    hash_del-IsMap 100 plenty (λ n. refl) one_key only_five 5 one_key-IsMap (omega arith)
      (omega arith)

hash_lookup-Looked_example :
    (r : ℕ) × (hash_lookup 15 one_key 13 (hash_direct_hfunc 13) ≡ some r)
    × (r < size_of one_key)
    × Looked one_key 13 r
hash_lookup-Looked_example = hash_lookup-Looked one_key one_key-IsMap.table 13 15 (omega arith)

abbrev two_strings : ℕ → List ℕ
two_strings zero = 97 ∷ []
two_strings (suc a) = 97 ∷ 98 ∷ []

two_strings-IsString : (a : ℕ) → IsString (two_strings a)
two_strings-IsString zero = ((omega arith, omega arith), tt)
two_strings-IsString (suc a) = ((omega arith, omega arith), ((omega arith, omega arith), tt))

hash_string-IsKeying_example :
    IsKeying
      (λ a. hash_string_hfunc (two_strings a))
      (λ a b. hash_string_cmp (two_strings a) (two_strings b))
hash_string-IsKeying_example = hash_string-IsKeying two_strings two_strings-IsString
