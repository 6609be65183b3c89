-- ===== src/Queue/Spec.antt =====
-- The abstract queue: its elements from the head's `next` to its `prev`, the last one first out.
use domin_os.Base.{
  ℕ, ◌≤◌, ◌≡◌, refl, ◌≢◌, ap, ◌⊎◌, false, Option, none, some, List, [], ◌∷◌, ◌++◌, arith, ltb,
  if◌then◌else◌, Bool-cases, inl, inr, All, All-map, Fresh, IsNodup,
}
use domin_os.Queue.{Ptr}

unfoldable pub insert : (Ptr → ℕ) → Ptr → List Ptr → List Ptr
insert key e [] = e ∷ []
insert key e (x ∷ xs) =
    let rest = insert key e xs in if ltb (key x) (key e) then x ∷ rest else e ∷ x ∷ xs

unfoldable pub last? : List Ptr → Option Ptr
last? [] = none
last? (x ∷ []) = some x
last? (x ∷ (y ∷ ys)) = last? (y ∷ ys)

unfoldable pub init_of : List Ptr → List Ptr
init_of [] = []
init_of (x ∷ []) = []
init_of (x ∷ (y ∷ ys)) = x ∷ init_of (y ∷ ys)

-- What `last?` and `init_of` make of a list with a last element.
pub last?-snoc : (us : List Ptr) (z : Ptr) → last? (us ++ (z ∷ [])) ≡ some z
unfolding last?
last?-snoc [] z = refl
last?-snoc (x ∷ []) z = refl
last?-snoc (x ∷ (y ∷ us)) z = last?-snoc (y ∷ us) z

pub init_of-snoc : (us : List Ptr) (z : Ptr) → init_of (us ++ (z ∷ [])) ≡ us
unfolding init_of
init_of-snoc [] z = refl
init_of-snoc (x ∷ []) z = refl
init_of-snoc (x ∷ (y ∷ us)) z = ap (◌∷◌ x) (init_of-snoc (y ∷ us) z)

pub snoc_cases : (xs : List Ptr) → (xs ≡ []) ⊎ ((us : List Ptr) × (z : Ptr) × (xs ≡ us ++ (z ∷ [])))
snoc_cases [] = inl refl
snoc_cases (x ∷ xs) = elim (snoc_cases xs) [
  | inl e ↦ inr ([], x, ap (◌∷◌ x) e)
  | inr (us, z, e) ↦ inr (x ∷ us, z, ap (◌∷◌ x) e)
]

-- In rising order of the key.
abbrev pub IsSorted : (Ptr → ℕ) → List Ptr → Type 0
IsSorted key [] = Unit
IsSorted key (x ∷ xs) = All (λ y. key x ≤ key y) xs × IsSorted key xs

module _ (key : Ptr → ℕ) where
  pub All-insert :
      (P : Ptr → Type 0) (e : Ptr) (xs : List Ptr) → P e → All P xs → All P (insert key e xs)
  unfolding insert
  All-insert P e [] h k = (h, tt)
  All-insert P e (x ∷ xs) h k = elim (Bool-cases (ltb (key x) (key e))) [
    | inl lt ↦ rw lt (k.0, All-insert P e xs h k.1)
    | inr ge ↦ rw ge (h, k)
  ]

  pub insert-IsSorted : (e : Ptr) (xs : List Ptr) → IsSorted key xs → IsSorted key (insert key e xs)
  unfolding insert
  insert-IsSorted e [] h = (tt, tt)
  insert-IsSorted e (x ∷ xs) h = elim (Bool-cases (ltb (key x) (key e))) [
    | inl lt ↦ rw lt (All-insert _ e xs (ground arith) h.0, insert-IsSorted e xs h.1)
    | inr ge ↦ rw ge ((ground arith, All-map xs (λ y p. ground arith) h.0), h)
  ]

  pub insert-ne-nil : (e : Ptr) (xs : List Ptr) → insert key e xs ≢ []
  unfolding insert
  insert-ne-nil e [] h = cc
  insert-ne-nil e (x ∷ xs) h = ground arith

  pub insert-IsNodup :
      (e : Ptr) (xs : List Ptr) → Fresh e xs → IsNodup xs → IsNodup (insert key e xs)
  unfolding insert
  insert-IsNodup e [] h k = (tt, tt)
  insert-IsNodup e (x ∷ xs) h k = elim (Bool-cases (ltb (key x) (key e))) [
    | inl lt ↦ rw lt (All-insert _ e xs (λ p. h.0 (ground arith)) k.0, insert-IsNodup e xs h.1 k.1)
    | inr ge ↦ rw ge (h, k)
  ]

module _ (key : Ptr → ℕ) where
  -- The last element of a sorted queue has the highest key.
  pub last?-max :
      (xs : List Ptr) (z : Ptr) → IsSorted key xs → last? xs ≡ some z → All (λ y. key y ≤ key z) xs
  unfolding last?
  last?-max [] z s h = cc
  last?-max (x ∷ []) z s h = ground arith
  last?-max (x ∷ (y ∷ ys)) z s h = let rest = last?-max (y ∷ ys) z s.1 h in (omega arith, rest)

  last?-cons :
      (x : Ptr) (xs : List Ptr) (r : Option Ptr) → last? xs ≡ r → r ≢ none → last? (x ∷ xs) ≡ r
  unfolding last?
  last?-cons x [] r h k = absurd (k (ground arith))
  last?-cons x (y ∷ ys) r h k = h

  insert-cons :
      (e x : Ptr) (xs : List Ptr)
      → insert key e (x ∷ xs) ≡ (if ltb (key x) (key e) then x ∷ insert key e xs else e ∷ x ∷ xs)
  unfolding insert
  insert-cons e x xs = refl

  -- A new element is served next exactly if its key is above the highest of the queue: of equal
  -- elements the first to come is the first to go.
  pub last?-insert :
      (e : Ptr) (xs : List Ptr) (z : Ptr)
      → IsSorted key xs
      → last? xs ≡ some z
      → last? (insert key e xs) ≡ (if ltb (key z) (key e) then some e else some z)
  unfolding last?
  last?-insert e [] z s h = cc
  last?-insert e (x ∷ []) z s h = unfold insert in ground arith
  last?-insert e (x ∷ (y ∷ ys)) z s h =
      let top = last?-max (x ∷ (y ∷ ys)) z s h in
      rw (insert-cons e x (y ∷ ys)) (elim (Bool-cases (ltb (key x) (key e))) [
        | inl lt ↦ rw lt (
            last?-cons x (insert key e (y ∷ ys)) _ (last?-insert e (y ∷ ys) z s.1 h) (ground arith))
        | inr ge ↦ rw ge (let low : ltb (key z) (key e) ≡ false = ground arith in rw low h)
      ])
