-- ===== src/Kernel/Facts.antt =====
-- How unlinking, insertion and updates of one task bear on membership, order and the invariant.
use domin_os.Base.{
  ℕ, ◌≤◌, ◌≡◌, refl, subst, ◌≢◌, true, false, List, [], ◌∷◌, arith, ◌==◌, Bool-cases, inl, inr, All,
  All-map, Fresh, IsNodup,
}
use domin_os.Queue.{Ptr}
use domin_os.Queue.Spec.{insert, IsSorted}
use domin_os.Kernel.{TaskState}
use domin_os.Kernel.Lists.{has, erase}

pub has-of_state :
    (s : Ptr → TaskState) (a : TaskState) (t : Ptr) (xs : List Ptr)
    → All (λ x. s x ≡ a) xs
    → s t ≢ a
    → has t xs ≡ false
has-of_state s a t [] h n = refl
has-of_state s a t (x ∷ xs) h n = ground (arith, has-of_state s a t xs h.1 n)

pub Fresh-of_has : (t : Ptr) (xs : List Ptr) → has t xs ≡ false → Fresh t xs
Fresh-of_has t [] h = tt
Fresh-of_has t (x ∷ xs) h = (ground arith, Fresh-of_has t xs (ground arith))

pub has-of_Fresh : (t : Ptr) (xs : List Ptr) → Fresh t xs → has t xs ≡ false
has-of_Fresh t [] h = refl
has-of_Fresh t (x ∷ xs) h = ground (arith, has-of_Fresh t xs h.1)

pub All-erase : (P : Ptr → Type 0) (t : Ptr) (xs : List Ptr) → All P xs → All P (erase t xs)
unfolding erase
All-erase P t [] h = tt
All-erase P t (x ∷ xs) h = elim (Bool-cases (t == x)) [
  | inl e ↦ rw e h.1
  | inr e ↦ rw e (h.0, All-erase P t xs h.1)
]

pub erase-IsNodup : (t : Ptr) (xs : List Ptr) → IsNodup xs → IsNodup (erase t xs)
unfolding erase
erase-IsNodup t [] h = tt
erase-IsNodup t (x ∷ xs) h = elim (Bool-cases (t == x)) [
  | inl e ↦ rw e h.1
  | inr e ↦ rw e (All-erase (λ y. x ≢ y) t xs h.0, erase-IsNodup t xs h.1)
]

pub erase-IsSorted :
    (key : Ptr → ℕ) (t : Ptr) (xs : List Ptr) → IsSorted key xs → IsSorted key (erase t xs)
unfolding erase
erase-IsSorted key t [] h = tt
erase-IsSorted key t (x ∷ xs) h = elim (Bool-cases (t == x)) [
  | inl e ↦ rw e h.1
  | inr e ↦ rw e (All-erase (λ y. key x ≤ key y) t xs h.0, erase-IsSorted key t xs h.1)
]

pub has-erase-false : (t u : Ptr) (xs : List Ptr) → has t xs ≡ false → has t (erase u xs) ≡ false
unfolding erase
has-erase-false t u [] h = refl
has-erase-false t u (x ∷ xs) h = ground (arith, has-erase-false t u xs)

pub has-erase_self : (t : Ptr) (xs : List Ptr) → IsNodup xs → has t (erase t xs) ≡ false
unfolding erase
has-erase_self t [] h = refl
has-erase_self t (x ∷ xs) h = elim (Bool-cases (t == x)) [
  | inl e ↦ rw e (has-of_Fresh t xs (subst (λ y. Fresh y xs) (ground arith) h.0))
  | inr e ↦ rw e (rw e (has-erase_self t xs h.1))
]

pub has-erase_ne : (t u : Ptr) (xs : List Ptr) → t ≢ u → has t (erase u xs) ≡ has t xs
unfolding erase
has-erase_ne t u [] n = refl
has-erase_ne t u (x ∷ xs) n = ground (arith, has-erase_ne t u xs n)

-- A predicate that holds off `t` holds on a list without `t`.
pub All-off :
    (P Q : Ptr → Type 0) (t : Ptr) (xs : List Ptr)
    → ((p : Ptr) → p ≢ t → P p → Q p)
    → has t xs ≡ false
    → All P xs
    → All Q xs
All-off P Q t [] f h a = tt
All-off P Q t (x ∷ xs) f h a = (f x (ground arith) a.0, All-off P Q t xs f (ground arith) a.1)

-- The order depends only on the keys of the list's elements.
pub IsSorted-off :
    (key key' : Ptr → ℕ) (t : Ptr) (xs : List Ptr)
    → ((p : Ptr) → p ≢ t → key' p ≡ key p)
    → has t xs ≡ false
    → IsSorted key xs
    → IsSorted key' xs
IsSorted-off key key' t [] f h s = tt
IsSorted-off key key' t (x ∷ xs) f h s =
    let e = f x (ground arith) in
    (
      All-off (λ y. key x ≤ key y) (λ y. key' x ≤ key' y) t xs (λ p n le. omega (arith, f p n, e))
          (ground arith) s.0,
      IsSorted-off key key' t xs f (ground arith) s.1,
    )

pub IsSorted-ext :
    (key key' : Ptr → ℕ) (xs : List Ptr)
    → ((p : Ptr) → key' p ≡ key p)
    → IsSorted key xs
    → IsSorted key' xs
IsSorted-ext key key' [] f s = tt
IsSorted-ext key key' (x ∷ xs) f s =
    (All-map xs (λ y le. omega (arith, f x, f y)) s.0, IsSorted-ext key key' xs f s.1)

pub has-insert :
    (key : Ptr → ℕ) (e t : Ptr) (xs : List Ptr) → has t xs ≡ true → has t (insert key e xs) ≡ true
unfolding insert
has-insert key e t [] h = cc
has-insert key e t (x ∷ xs) h = ground (arith, has-insert key e t xs)

pub has-insert_self : (key : Ptr → ℕ) (e : Ptr) (xs : List Ptr) → has e (insert key e xs) ≡ true
unfolding insert
has-insert_self key e [] = ground arith
has-insert_self key e (x ∷ xs) = ground (arith, has-insert_self key e xs)
