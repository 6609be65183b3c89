-- ===== src/Hash.antt =====
-- The hash table: kernel/hash.c, open addressing with the probe order of CPython's dict. Keys and
-- values are addresses. `mem_alloc` is the parameter `room`, whether there is memory for a number of
-- slots; what it gives is filled at once. The search loop takes fuel. The map that a caller gives is
-- not NULL.
pub mod Cycle
pub mod Count
pub mod Order
pub mod Search
pub mod Table
pub mod Fill
pub mod Fit
pub mod Copy
pub mod Update
pub mod Models
pub mod Map
pub mod Set
pub mod Delete
pub mod Text
pub mod Tests
use domin_os.Base.{
  ℕ, zero, suc, ◌+◌, ◌-◌, ◌*◌, ◌/◌, ◌%◌, Bool, true, false, ◌&&◌, ◌||◌, not, Option, none, some,
  leb, ◌==◌, if◌then◌else◌, ◌>>=◌, List, [], ◌∷◌, ltb,
}
use domin_os.Word.{word, neg, int_lt, add32, sub32}

-- A slot and its mode; one that is empty or deleted has no key, value and hash.
pub data Slot : Type 0 where
  empty deleted : Slot
  active : (key value hash : ℕ) → Slot

pub record HashMap : Type 0 where
  pub fill : ℕ
  pub count : ℕ
  pub mask : ℕ
  pub table : ℕ → Slot
  pub hfunc : ℕ → ℕ
  pub cmp : ℕ → ℕ → Bool

abbrev pub hash_minsize : ℕ
hash_minsize = 8

abbrev pub size_of : HashMap → ℕ
size_of map = map.mask + 1

abbrev pub long_le : ℕ → ℕ → Bool
long_le a b = not (int_lt b a)

unfoldable pub hash_initialize : (ℕ → Bool) → ℕ → HashMap → Option HashMap
hash_initialize room size map =
    if room size
    then some (record map { fill = 0; count = 0; mask = size - 1; table = λ i. empty })
    else none

-- `index & mask`: the size is a power of two.
abbrev pub slot_index : HashMap → ℕ → ℕ
slot_index map index = index % size_of map

-- `5 * index + perturb + 1` and `perturb >>= 5`.
abbrev pub next_index : ℕ → ℕ → ℕ
next_index index perturb = (5 * index + perturb + 1) % word

abbrev pub next_perturb : ℕ → ℕ
next_perturb perturb = perturb / 32

abbrev pub matches : HashMap → ℕ → ℕ → ℕ → ℕ → Bool
matches map key hash k h = (k == key) || ((h == hash) && map.cmp k key)

abbrev pub first_free : Option ℕ → ℕ → ℕ
first_free none slot = slot
first_free (some freeslot) slot = freeslot

-- The loop of `hash_lookup`; the result is the index of the slot.
unfoldable pub lookup_loop : ℕ → HashMap → ℕ → ℕ → ℕ → ℕ → Option ℕ → Option ℕ
lookup_loop zero map key hash index perturb freeslot = none
lookup_loop (suc fuel) map key hash index perturb freeslot =
    let slot = slot_index map index in
    let rest = lookup_loop fuel map key hash (next_index index perturb) (next_perturb perturb) in
    elim (map.table slot) [
      | empty ↦ some (first_free freeslot slot)
      | active k v h ↦ if matches map key hash k h then some slot else rest freeslot
      | deleted ↦ rest (some (first_free freeslot slot))
    ]

unfoldable pub hash_lookup : ℕ → HashMap → ℕ → ℕ → Option ℕ
hash_lookup fuel map key hash = lookup_loop fuel map key hash (slot_index map hash) hash none

unfoldable pub put_slot : ℕ → Slot → HashMap → HashMap
put_slot i s map = record map { table = λ j. if j == i then s else map.table j }

-- The body of the loop of `hash_copy`.
unfoldable pub copy_slot : ℕ → Slot → HashMap → Option HashMap
copy_slot fuel empty map = some map
copy_slot fuel deleted map = some map
copy_slot fuel (active k v h) map = do
  i ← hash_lookup fuel map k (map.hfunc k)
  some (record (put_slot i (active k v h) map) { fill = map.fill + 1; count = map.count + 1 })

-- `hash_copy`, for the `n` slots from `i` on.
unfoldable pub hash_copy : ℕ → ℕ → ℕ → (ℕ → Slot) → HashMap → Option HashMap
hash_copy fuel zero i oldtable map = some map
hash_copy fuel (suc n) i oldtable map = do
  map1 ← copy_slot fuel (oldtable i) map
  hash_copy fuel n (suc i) oldtable map1

unfoldable pub resize : ℕ → (ℕ → Bool) → ℕ → HashMap → Option (ℕ × HashMap)
resize fuel room new_size map = elim (hash_initialize room new_size map) [
  | none ↦ some (neg 1, map)
  | some map1 ↦ hash_copy fuel (size_of map) 0 map.table map1 >>= λ map2. some (0, map2)
]

unfoldable pub hash_update : ℕ → (ℕ → Bool) → HashMap → Option (ℕ × HashMap)
hash_update fuel room map =
    let old_size = size_of map in
    if long_le (2 * old_size % word) (3 * map.fill % word)
    then if int_lt (2 * old_size % word) old_size
      then some (neg 1, map)
      else resize fuel room (2 * old_size % word) map
    else if int_lt hash_minsize old_size && long_le (4 * map.count % word) old_size
    then resize fuel room (old_size / 2) map
    else some (0, map)

-- What the map held before is not read; `blank` stands for it.
unfoldable pub hash_init : (ℕ → Bool) → (ℕ → ℕ) → (ℕ → ℕ → Bool) → HashMap → ℕ × HashMap
hash_init room hfunc cmp blank = elim (hash_initialize room hash_minsize blank) [
  | none ↦ (neg 1, blank)
  | some map ↦ (0, record map { hfunc = hfunc; cmp = cmp })
]

abbrev pub is_active : Slot → Bool
is_active (active k v h) = true
is_active _ = false

unfoldable pub hash_isset : ℕ → HashMap → ℕ → Option Bool
hash_isset fuel map key =
    hash_lookup fuel map key (map.hfunc key) >>= λ i. some (is_active (map.table i))

abbrev pub value_or : Slot → ℕ → ℕ
value_or (active k v h) d = v
value_or _ d = d

unfoldable pub hash_get : ℕ → HashMap → ℕ → ℕ → Option ℕ
hash_get fuel map key default_value =
    hash_lookup fuel map key (map.hfunc key) >>= λ i. some (value_or (map.table i) default_value)

-- What `hash_set` does at the slot that it found.
unfoldable pub set_at : ℕ → (ℕ → Bool) → ℕ → ℕ → ℕ → Slot → HashMap → Option (ℕ × HashMap)
set_at fuel room i key value (active k v h) map = some (0, put_slot i (active k value h) map)
set_at fuel room i key value empty map =
    hash_update fuel room (record (put_slot i (active key value (map.hfunc key)) map) {
      count = map.count + 1;
      fill = map.fill + 1;
    })
set_at fuel room i key value deleted map =
    hash_update fuel room
      (record (put_slot i (active key value (map.hfunc key)) map) { count = map.count + 1 })

unfoldable pub hash_set : ℕ → (ℕ → Bool) → HashMap → ℕ → ℕ → Option (ℕ × HashMap)
hash_set fuel room map key value =
    hash_lookup fuel map key (map.hfunc key) >>= λ i. set_at fuel room i key value (map.table i) map

unfoldable pub hash_del : ℕ → (ℕ → Bool) → HashMap → ℕ → Option (ℕ × HashMap)
hash_del fuel room map key = hash_lookup fuel map key (map.hfunc key) >>= λ i.
    if is_active (map.table i)
    then hash_update fuel room (record (put_slot i deleted map) { count = map.count - 1 })
    else some (0, map)

-- The functions of `hash_init_direct`.
abbrev pub hash_direct_cmp : ℕ → ℕ → Bool
hash_direct_cmp key1 key2 = key1 == key2

abbrev pub hash_direct_hfunc : ℕ → ℕ
hash_direct_hfunc key = key % word

-- `^` on the lower `n` bits.
unfoldable pub xor : ℕ → ℕ → ℕ → ℕ
xor zero a b = 0
xor (suc n) a b = (a + b) % 2 + 2 * xor n (a / 2) (b / 2)

-- A string is its bytes before the null one. `char` is signed.
abbrev pub char_value : ℕ → ℕ
char_value c = if ltb c 128 then c else c + (word - 256)

unfoldable pub string_hash : ℕ → List ℕ → ℕ
string_hash hash [] = hash
string_hash hash (c ∷ key) = string_hash (xor 32 (add32 (hash * 32 % word) hash) (char_value c)) key

abbrev pub hash_string_hfunc : List ℕ → ℕ
hash_string_hfunc key = string_hash 5381 key

abbrev pub first_char : List ℕ → ℕ
first_char [] = 0
first_char (c ∷ key) = c

unfoldable pub strcmp : List ℕ → List ℕ → ℕ
strcmp [] s2 = sub32 0 (first_char s2)
strcmp (c ∷ s1) [] = sub32 c 0
strcmp (c ∷ s1) (c2 ∷ s2) = let rest = strcmp s1 s2 in if sub32 c c2 == 0 then rest else sub32 c c2

abbrev pub hash_string_cmp : List ℕ → List ℕ → Bool
hash_string_cmp key1 key2 = strcmp key1 key2 == 0
