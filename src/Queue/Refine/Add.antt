-- ===== src/Queue/Refine/Add.antt =====
-- `queue_add` links the new element where `insert` puts it.
use domin_os.Base.{
  ℕ, zero, suc, ◌<◌, ◌≡◌, refl, sym, ap, subst, ◌≢◌, true, false, Option, none, some, List, [], ◌∷◌,
  ◌++◌, arith, ltb, ◌==◌, length, Bool-cases, inl, inr, All, All-map, All-zip, All-last,
  All-append_left, All-append_right, Fresh, IsNodup, last_or, IsNodup-append_left,
  IsNodup-append_right, IsNodup-middle, IsNodup-disjoint,
}
use domin_os.Queue.{Ptr, null, Links, is_link_null, find_place, link_before, queue_add}
use domin_os.Queue.Seg.{Seg, IsRing, Seg-prev, Seg-append, Seg-frame, Seg-relink}
use domin_os.Queue.Spec.{insert, All-insert, insert-IsNodup}

module _ (l : Links) (head : Ptr) (key : Ptr → ℕ) (e : Ptr) where
  -- Where the walk of `queue_add` stops, in terms of `insert`.
  data Place (a : Ptr) (xs : List Ptr) : Option Ptr → Type 0 where
    at_end : Seg l a xs head → insert key e xs ≡ xs ++ (e ∷ []) → Place a xs (some head)
    before :
        (us : List Ptr) (c : Ptr) (vs : List Ptr)
        → Seg l a us c
        → Seg l c vs head
        → insert key e xs ≡ us ++ (e ∷ (c ∷ vs))
        → xs ≡ us ++ (c ∷ vs)
        → Place a xs (some c)

  Place-cons :
      (a x : Ptr) (xs : List Ptr) (r : Option Ptr)
      → l.next a ≡ x
      → l.prev x ≡ a
      → ltb (key x) (key e) ≡ true
      → Place x xs r
      → Place a (x ∷ xs) r
  unfolding insert
  Place-cons a x xs r n p lt (at_end s i) = at_end (n, p, s) (rw lt (ap (◌∷◌ x) i))
  Place-cons a x xs r n p lt (before us c vs s t i q) =
      before (x ∷ us) c vs (n, p, s) t (rw lt (ap (◌∷◌ x) i)) (ap (◌∷◌ x) q)

  find_place-Place :
      (fuel : ℕ) (a : Ptr) (xs : List Ptr)
      → Seg l a xs head
      → Fresh head xs
      → length xs < fuel
      → Place a xs (find_place key l head e fuel (l.next a))
  unfolding find_place insert
  find_place-Place zero a xs s d f = absurd (omega arith)
  find_place-Place (suc fuel) a [] s d f =
      let stop : (l.next a == head) ≡ true = ground arith in rw (stop, s.0) (at_end s refl)
  find_place-Place (suc fuel) a (x ∷ xs) s d f =
      let off : (x == head) ≡ false = ground arith in
      rw (s.0, off)
        (elim (Bool-cases (ltb (key x) (key e))) [
          | inl lt ↦
              rw lt
                (Place-cons a x xs _ s.0 s.1 lt (find_place-Place fuel x xs s.2 d.1 (omega arith)))
          | inr ge ↦ rw ge (before [] x xs (s.0, s.1) s.2 (rw ge) refl)
        ])

module _ (l : Links) (e c : Ptr) where
  -- After the four writes the segment that led to `c` leads to `e`, and `e` to `c`.
  link_before-Seg :
      (a : Ptr) (us : List Ptr)
      → Seg l a us c
      → IsNodup (a ∷ us)
      → Fresh e (a ∷ us)
      → Fresh c us
      → e ≢ c
      → Seg (link_before e c l) a us e × Seg (link_before e c l) e [] c
  unfolding link_before
  link_before-Seg a us s d fe fc ne =
      let away = All-last (λ p. e ≢ p) a us fe.0 fe.1 in
      let p = Seg-prev l a us c s in
      (
        Seg-relink l _ a us c e s d (ground arith) (ground arith)
            (All-map (a ∷ us) (λ x h k. ground arith) fe)
            (All-map us (λ x h. ground arith) (All-zip (λ p. e ≢ p) (λ p. c ≢ p) us fe.1 fc)),
        ground arith,
      )

-- The links outside `ps` hold what they held.
abbrev pub SameOutside : List Ptr → Links → Links → Type 0
SameOutside ps l l' = (p : Ptr) → Fresh p ps → (l'.next p ≡ l.next p) × (l'.prev p ≡ l.prev p)

abbrev pub Added : (Ptr → ℕ) → Ptr → Ptr → List Ptr → Links → Option Links → Type 0
Added key e head xs l r =
    (l' : Links) × (r ≡ some l')
    × IsRing l' head (insert key e xs)
    × SameOutside (e ∷ head ∷ xs) l l'

-- What the four writes leave alone.
link_before-SameOutside :
    (l : Links) (e c head : Ptr) (us : List Ptr)
    → Seg l head us c
    → SameOutside (e ∷ c ∷ head ∷ us) l (link_before e c l)
unfolding link_before
link_before-SameOutside l e c head us s p f =
    let q = Seg-prev l head us c s in
    let away = All-last (λ y. p ≢ y) head us f.1.1.0 f.1.1.1 in (ground arith, ground arith)

module _ (l : Links) (head : Ptr) (key : Ptr → ℕ) (e : Ptr) (xs : List Ptr)
    (ring : IsRing l head xs) (ok : e ≢ null) (new : Fresh e (head ∷ xs)) where
  apart-insert : IsNodup (head ∷ insert key e xs)
  apart-insert = (
    All-insert key (λ y. head ≢ y) e xs (λ q. new.0 (sym q)) ring.apart.0,
    insert-IsNodup key e xs new.1 ring.apart.1,
  )

  not_null-insert : All (λ p. p ≢ null) (head ∷ insert key e xs)
  not_null-insert = (ring.not_null.0, All-insert key _ e xs ok ring.not_null.1)

  link_before-Added :
      (c : Ptr)
      → Seg (link_before e c l) head (insert key e xs) head
      → SameOutside (e ∷ head ∷ xs) l (link_before e c l)
      → Added key e head xs l (some (link_before e c l))
  link_before-Added c s same = (
    link_before e c l,
    refl,
    record { chain = s; apart = apart-insert; not_null = not_null-insert },
    same,
  )

-- The part of the ring from `c` on keeps its links.
link_before-beyond :
    (l : Links) (e c head : Ptr) (us vs : List Ptr)
    → Seg l head us c
    → Seg l c vs head
    → Fresh c vs
    → Fresh e (c ∷ vs)
    → Fresh (last_or head us) (c ∷ vs)
    → head ≢ c
    → e ≢ head
    → Seg (link_before e c l) c vs head
unfolding link_before
link_before-beyond l e c head us vs s t fc fe far hc he =
    let q = Seg-prev l head us c s in
    Seg-frame l _ c vs head t
      (All-map (c ∷ vs) (λ x h. ground arith)
        (All-zip (λ p. e ≢ p) (λ p. last_or head us ≢ p) (c ∷ vs) fe far))
      (All-map vs (λ x h. ground arith) (All-zip (λ p. e ≢ p) (λ p. c ≢ p) vs fe.1 fc))
      (ground arith)

-- The element goes before `c`, which stands in the ring.
link_before-inside :
    (l : Links) (head e c : Ptr) (us vs : List Ptr)
    → Seg l head us c
    → Seg l c vs head
    → IsNodup (head ∷ us ++ (c ∷ vs))
    → Fresh e (head ∷ us ++ (c ∷ vs))
    → Seg (link_before e c l) head (us ++ (e ∷ (c ∷ vs))) head
link_before-inside l head e c us vs s t d f =
    let du = All-append_left (λ y. head ≢ y) us (c ∷ vs) d.0 in
    let dv = All-append_right (λ y. head ≢ y) us (c ∷ vs) d.0 in
    let fu = All-append_left (λ y. e ≢ y) us (c ∷ vs) f.1 in
    let fv = All-append_right (λ y. e ≢ y) us (c ∷ vs) f.1 in
    let r =
      link_before-Seg l e c head us s (du, IsNodup-append_left us (c ∷ vs) d.1) (f.0, fu)
        (IsNodup-middle us c vs d.1) fv.0 in
    let far = All-last (λ u. Fresh u (c ∷ vs)) head us dv (IsNodup-disjoint us (c ∷ vs) d.1) in
    Seg-append _ head us e (c ∷ vs) head r.0 (
      r.1.0,
      r.1.1,
      link_before-beyond l e c head us vs s t (IsNodup-append_right us (c ∷ vs) d.1).0 fv far dv.0
          f.0,
    )

-- `queue_add` of a fresh, unlinked element to a ring, with fuel above the length of the ring,
-- does not panic; the result is the ring with the element where the abstract `insert` puts it,
-- and every link outside keeps its pointers.
pub queue_add-insert :
    (l : Links) (head : Ptr) (key : Ptr → ℕ) (e : Ptr) (xs : List Ptr) (fuel : ℕ)
    → IsRing l head xs
    → e ≢ null
    → Fresh e (head ∷ xs)
    → is_link_null l e ≡ true
    → length xs < fuel
    → Added key e head xs l (queue_add key fuel e head l)
unfolding queue_add
queue_add-insert l head key e xs fuel ring ok new clear f =
    rw clear (go _ (find_place-Place l head key e fuel head xs ring.chain ring.apart.0 f))
  where
    go :
        (r : Option Ptr)
        → Place l head key e head xs r
        → Added key e head xs l (elim r [ none ↦ none | some cur ↦ some (link_before e cur l) ])
    go r (at_end s i) =
        let two = link_before-Seg l e head head xs s ring.apart new ring.apart.0 new.0 in
        link_before-Added l head key e xs ring ok new head
          (rw i (Seg-append _ head xs e [] head two.0 two.1))
          λ p h. link_before-SameOutside l e head head xs s p (h.0, (h.1.0, h.1))
    go r (before us c vs s t i q) =
        link_before-Added l head key e xs ring ok new c
          (rw i (
            link_before-inside l head e c us vs s t (subst (λ ys. IsNodup (head ∷ ys)) q ring.apart)
              (subst (λ ys. Fresh e (head ∷ ys)) q new)))
          λ p h.
            let h' = subst (λ ys. Fresh p ys) q h.1.1 in
            link_before-SameOutside l e c head us s p (
              h.0,
              (
                (All-append_right (λ y. p ≢ y) us (c ∷ vs) h').0,
                (h.1.0, All-append_left (λ y. p ≢ y) us (c ∷ vs) h'),
              ),
            )
