-- ===== src/Hash/Text.antt =====
-- The predefined functions of kernel/hash.c: those of addresses and those of strings.
use domin_os.Base.{
  ℕ, zero, suc, ◌*◌, ◌/◌, ◌%◌, ◌^◌, true, List, [], ◌∷◌, ◌==◌, ◌≡◌, refl, ◌<◌, inl, inr, arith,
  Bool-cases, All,
}
use domin_os.Word.{word, sub32, add32}
use domin_os.Hash.{
  hash_direct_cmp, hash_direct_hfunc, xor, char_value, string_hash, hash_string_hfunc, strcmp,
  hash_string_cmp,
}
use domin_os.Hash.Table.{IsKeying}

-- The bytes of a string, none of them null.
abbrev pub IsString : List ℕ → Type 0
IsString = All (λ c. (0 < c) × (c < 256))

pub hash_direct-IsKeying : IsKeying hash_direct_hfunc hash_direct_cmp
hash_direct-IsKeying = record {
  cmp_refl = λ a. ground arith;
  cmp_symm = λ a b e. ground arith;
  cmp_trans = λ a b c e f. ground arith;
  hash_same = λ a b e. ground arith;
  hash_word = λ a. omega arith;
}

xor-lt : (n a b : ℕ) → xor n a b < 2 ^ n
unfolding xor
xor-lt zero a b = omega arith
xor-lt (suc n) a b = omega (arith, xor-lt n (a / 2) (b / 2))

string_hash-lt : (hash : ℕ) (key : List ℕ) → hash < word → string_hash hash key < word
unfolding string_hash
string_hash-lt hash [] l = l
string_hash-lt hash (c ∷ key) l =
    string_hash-lt (xor 32 (add32 (hash * 32 % word) hash) (char_value c)) key (xor-lt 32 _ _)

strcmp_self : (s : List ℕ) → strcmp s s ≡ 0
unfolding strcmp
strcmp_self [] = refl
strcmp_self (c ∷ s) = let e : sub32 c c ≡ 0 = omega arith in rw (e, strcmp_self s) refl

-- `strcmp` is 0 only for equal strings.
strcmp-eq : (s t : List ℕ) → IsString s → IsString t → strcmp s t ≡ 0 → s ≡ t
unfolding strcmp
strcmp-eq [] [] a b e = refl
strcmp-eq [] (c ∷ t) a b e = absurd (omega (arith, b.0.0, b.0.1, e))
strcmp-eq (c ∷ s) [] a b e = absurd (omega (arith, a.0.0, a.0.1, e))
strcmp-eq (c ∷ s) (d ∷ t) a b e = elim (Bool-cases (sub32 c d == 0)) [
  | inl z ↦
      let same : c ≡ d = ground (arith, a.0.0, a.0.1, b.0.0, b.0.1, z) in
      let rest : s ≡ t = strcmp-eq s t a.1 b.1 (rw z at e) in rw (same, rest) refl
  | inr z ↦ absurd (ground (arith, z, (rw z at e)))
]

-- On strings of bytes that are not null, `hash_string_cmp` is an equivalence, strings that it
-- finds equal have the same `hash_string_hfunc`, and every hash is below 2 ^ 32.
pub hash_string-IsKeying :
    (chars : ℕ → List ℕ)
    → ((a : ℕ) → IsString (chars a))
    → IsKeying (λ a. hash_string_hfunc (chars a)) (λ a b. hash_string_cmp (chars a) (chars b))
hash_string-IsKeying chars string = record {
  cmp_refl = λ a. rw (strcmp_self (chars a)) refl;
  cmp_symm = λ a b e. rw (same a b e, strcmp_self (chars b)) refl;
  cmp_trans = λ a b c e f. rw (same a b e, same b c f, strcmp_self (chars c)) refl;
  hash_same = λ a b e. rw (same a b e) refl;
  hash_word = λ a. string_hash-lt 5381 (chars a) (omega arith);
}
  where
    same : (a b : ℕ) → hash_string_cmp (chars a) (chars b) ≡ true → chars a ≡ chars b
    same a b e = strcmp-eq (chars a) (chars b) (string a) (string b) (ground arith)
