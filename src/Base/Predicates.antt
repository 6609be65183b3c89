-- ===== src/Base/Predicates.antt =====
-- A predicate on every element of a list, distinct addresses, and the last element.
use Prim.Native.Nat.{ℕ}
use mathlib.Core.Logic.{◌≢◌}
use mathlib.Core.List.{List, [], ◌∷◌, ◌++◌}
use native.Mathlib.Omega.{arith}

module _ {ℓ κ} {A : Type ℓ} where
  abbrev pub All : (A → Type κ) → List A → Type κ
  All P [] = Unit
  All P (x ∷ xs) = P x × All P xs

  pub All-map : {P Q : A → Type κ} (xs : List A) → ((x : A) → P x → Q x) → All P xs → All Q xs
  All-map [] f h = tt
  All-map (x ∷ xs) f h = (f x h.0, All-map xs f h.1)

  pub All-append : (P : A → Type κ) (xs ys : List A) → All P xs → All P ys → All P (xs ++ ys)
  All-append P [] ys h k = k
  All-append P (x ∷ xs) ys h k = (h.0, All-append P xs ys h.1 k)

  pub All-append_left : (P : A → Type κ) (xs ys : List A) → All P (xs ++ ys) → All P xs
  All-append_left P [] ys h = tt
  All-append_left P (x ∷ xs) ys h = (h.0, All-append_left P xs ys h.1)

  pub All-append_right : (P : A → Type κ) (xs ys : List A) → All P (xs ++ ys) → All P ys
  All-append_right P [] ys h = h
  All-append_right P (x ∷ xs) ys h = All-append_right P xs ys h.1

  pub All-zip : (P Q : A → Type κ) (xs : List A) → All P xs → All Q xs → All (λ x. P x × Q x) xs
  All-zip P Q [] h k = tt
  All-zip P Q (x ∷ xs) h k = ((h.0, k.0), All-zip P Q xs h.1 k.1)

-- `x` is none of the listed addresses.
abbrev pub Fresh : ℕ → List ℕ → Type 0
Fresh x = All (λ y. x ≢ y)

abbrev pub IsNodup : List ℕ → Type 0
IsNodup [] = Unit
IsNodup (x ∷ xs) = Fresh x xs × IsNodup xs

pub IsNodup-append_left : (xs ys : List ℕ) → IsNodup (xs ++ ys) → IsNodup xs
IsNodup-append_left [] ys h = tt
IsNodup-append_left (x ∷ xs) ys h = (All-append_left _ xs ys h.0, IsNodup-append_left xs ys h.1)

pub IsNodup-append_right : (xs ys : List ℕ) → IsNodup (xs ++ ys) → IsNodup ys
IsNodup-append_right [] ys h = h
IsNodup-append_right (x ∷ xs) ys h = IsNodup-append_right xs ys h.1

-- An element between two others is neither.
pub IsNodup-middle : (xs : List ℕ) (y : ℕ) (ys : List ℕ) → IsNodup (xs ++ (y ∷ ys)) → Fresh y xs
IsNodup-middle [] y ys h = tt
IsNodup-middle (x ∷ xs) y ys h =
    (λ e. (All-append_right _ xs (y ∷ ys) h.0).0 (ground arith), IsNodup-middle xs y ys h.1)

-- The two parts of a list without repetitions share nothing.
pub IsNodup-disjoint : (xs ys : List ℕ) → IsNodup (xs ++ ys) → All (λ x. Fresh x ys) xs
IsNodup-disjoint [] ys h = tt
IsNodup-disjoint (x ∷ xs) ys h = (All-append_right _ xs ys h.0, IsNodup-disjoint xs ys h.1)

abbrev pub last_or : ℕ → List ℕ → ℕ
last_or d [] = d
last_or d (x ∷ xs) = last_or x xs

pub All-last {κ} : (P : ℕ → Type κ) (d : ℕ) (xs : List ℕ) → P d → All P xs → P (last_or d xs)
All-last P d [] h k = h
All-last P d (x ∷ xs) h k = All-last P x xs k.0 k.1
