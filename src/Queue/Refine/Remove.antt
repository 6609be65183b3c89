-- ===== src/Queue/Refine/Remove.antt =====
-- `queue_del` and `queue_out` unlink one element and clear its link.
use domin_os.Base.{
  ◌≡◌, sym, ap, subst, ◌∙◌, ◌≢◌, true, false, Option, some, List, [], ◌∷◌, ◌++◌, arith, ◌==◌, inl,
  inr, All, All-map, All-zip, All-last, All-append, All-append_left, All-append_right, Fresh,
  IsNodup, last_or, IsNodup-append_left, IsNodup-append_right, IsNodup-middle, IsNodup-disjoint,
}
use mathlib.Core.List.{append-nil}
use domin_os.Queue.{Ptr, null, Links, is_link_null, queue_del, unlink, take_last, queue_out}
use domin_os.Queue.Seg.{Seg, IsRing, Seg-prev, Seg-append, Seg-split, Seg-frame, Seg-relink}
use domin_os.Queue.Spec.{last?, init_of, last?-snoc, init_of-snoc, snoc_cases}

-- `l'` is `l` with the link `e`, between `us` and `vs`, taken out.
pub record Unlinked (l l' : Links) (e n : Ptr) : Type 0 where
  pub next_new : l'.next (l.prev e) ≡ n
  pub prev_new : l'.prev n ≡ l.prev e
  pub next_old : (p : Ptr) → p ≢ e → p ≢ l.prev e → l'.next p ≡ l.next p
  pub prev_old : (p : Ptr) → p ≢ e → p ≢ n → l'.prev p ≡ l.prev p
  pub next_clear : l'.next e ≡ null
  pub prev_clear : l'.prev e ≡ null

module _ (l l' : Links) (head e : Ptr) where
  -- The two segments round an unlinked element close up.
  Unlinked-end :
      (us : List Ptr)
      → Seg l head us e
      → IsNodup (head ∷ us)
      → Fresh e (head ∷ us)
      → Fresh head us
      → Unlinked l l' e head
      → Seg l' head us head
  Unlinked-end us s d f h u =
      Seg-relink l l' head us e head s d u.next_new u.prev_new
        (All-map (head ∷ us) (λ x g k. u.next_old x (λ q. g (sym q)) k) f)
        (All-map us (λ x g. u.prev_old x (λ q. g.0 (sym q)) (λ q. g.1 (sym q)))
          (All-zip (λ p. e ≢ p) (λ p. head ≢ p) us f.1 h))

  Unlinked-inside :
      (us : List Ptr) (v : Ptr) (vs : List Ptr)
      → Seg l head us e
      → Seg l v vs head
      → IsNodup (head ∷ us ++ (v ∷ vs))
      → Fresh e (head ∷ us ++ (v ∷ vs))
      → Unlinked l l' e v
      → Seg l' head (us ++ (v ∷ vs)) head
  Unlinked-inside us v vs s t d f u =
      let du = All-append_left (λ y. head ≢ y) us (v ∷ vs) d.0 in
      let dv = All-append_right (λ y. head ≢ y) us (v ∷ vs) d.0 in
      let fu = All-append_left (λ y. e ≢ y) us (v ∷ vs) f.1 in
      let fv = All-append_right (λ y. e ≢ y) us (v ∷ vs) f.1 in
      let far = All-last (λ w. Fresh w (v ∷ vs)) head us dv (IsNodup-disjoint us (v ∷ vs) d.1) in
      let q = Seg-prev l head us e s in
      let vv = (IsNodup-append_right us (v ∷ vs) d.1).0 in
      let mid = IsNodup-middle us v vs d.1 in
      Seg-append l' head us v vs head
        (Seg-relink l l' head us e v s (du, IsNodup-append_left us (v ∷ vs) d.1) u.next_new
          u.prev_new (All-map (head ∷ us) (λ x g k. u.next_old x (λ q. g (sym q)) k) (f.0, fu))
          (All-map us (λ x g. u.prev_old x (λ q. g.0 (sym q)) (λ q. g.1 (sym q)))
            (All-zip (λ p. e ≢ p) (λ p. v ≢ p) us fu mid)))
        (Seg-frame l l' v vs head t
          (All-map (v ∷ vs) (λ x g. u.next_old x (λ k. g.0 (sym k)) (λ k. g.1 (sym (k ∙ q))))
            (All-zip (λ p. e ≢ p) (λ p. last_or head us ≢ p) (v ∷ vs) fv far))
          (All-map vs (λ x g. u.prev_old x (λ k. g.0 (sym k)) (λ k. g.1 (sym k)))
            (All-zip (λ p. e ≢ p) (λ p. v ≢ p) vs fv.1 vv))
          (u.prev_old head (λ k. f.0 (sym k)) dv.0))

close :
    (l l' : Links) (head e : Ptr) (us vs : List Ptr)
    → Seg l head us e
    → Seg l e vs head
    → IsNodup (head ∷ us ++ vs)
    → Fresh e (head ∷ us ++ vs)
    → Unlinked l l' e (l.next e)
    → Seg l' head (us ++ vs) head
close l l' head e us [] s t d f u =
    let d' = subst (λ ys. IsNodup (head ∷ ys)) (append-nil us) d in
    rw append-nil (
      Unlinked-end l l' head e us s d' (subst (λ ys. Fresh e (head ∷ ys)) (append-nil us) f) d'.0
        (subst (Unlinked l l' e) t.0 u))
close l l' head e us (v ∷ vs) s t d f u =
    Unlinked-inside l l' head e us v vs s t.2 d f (subst (Unlinked l l' e) t.0 u)

-- Each operation's writes take the element out.
unlink-Unlinked :
    (l : Links) (e : Ptr) → l.prev e ≢ e → l.next e ≢ e → Unlinked l (unlink e l) e (l.next e)
unfolding unlink
unlink-Unlinked l e p n = record {
  next_new = ground arith;
  prev_new = ground arith;
  next_old = λ q a b. ground arith;
  prev_old = λ q a b. ground arith;
  next_clear = ground arith;
  prev_clear = ground arith;
}

take_last-Unlinked :
    (l : Links) (head e : Ptr)
    → l.prev head ≡ e
    → l.prev e ≢ e
    → head ≢ e
    → Unlinked l (take_last head l) e head
unfolding take_last
take_last-Unlinked l head e q p n = record {
  next_new = ground arith;
  prev_new = ground arith;
  next_old = λ x a b. ground arith;
  prev_old = λ x a b. ground arith;
  next_clear = ground arith;
  prev_clear = ground arith;
}

-- Without its middle element a list keeps what it has.
drop_middle :
    (us : List Ptr) (e : Ptr) (vs : List Ptr) → IsNodup (us ++ (e ∷ vs)) → IsNodup (us ++ vs)
drop_middle [] e vs h = h.1
drop_middle (x ∷ us) e vs h = (
  All-append (λ y. x ≢ y) us vs (All-append_left (λ y. x ≢ y) us (e ∷ vs) h.0)
      (All-append_right (λ y. x ≢ y) us (e ∷ vs) h.0).1,
  drop_middle us e vs h.1,
)

module _ (l : Links) (head : Ptr) (us : List Ptr) (e : Ptr) (vs : List Ptr)
    (ring : IsRing l head (us ++ (e ∷ vs))) where
  around : Seg l head us e × Seg l e vs head
  around = Seg-split l head us e vs head ring.chain

  Fresh-middle : Fresh e (head ∷ us ++ vs)
  Fresh-middle = (
    (λ q. (All-append_right (λ y. head ≢ y) us (e ∷ vs) ring.apart.0).0 (sym q)),
    All-append (λ y. e ≢ y) us vs (IsNodup-middle us e vs ring.apart.1)
        (IsNodup-append_right us (e ∷ vs) ring.apart.1).0,
  )

  rest_apart : IsNodup (head ∷ us ++ vs)
  rest_apart = drop_middle (head ∷ us) e vs ring.apart

  Unlinked-IsRing : (l' : Links) → Unlinked l l' e (l.next e) → IsRing l' head (us ++ vs)
  Unlinked-IsRing l' u = record {
    chain = close l l' head e us vs around.0 around.1 rest_apart Fresh-middle u;
    apart = rest_apart;
    not_null = (
      ring.not_null.0,
      All-append (λ p. p ≢ null) us vs (All-append_left _ us (e ∷ vs) ring.not_null.1)
          (All-append_right _ us (e ∷ vs) ring.not_null.1).1,
    );
  }

  -- The neighbours of a linked element are neither null nor the element.
  prev_middle : (l.prev e ≢ null) × (l.prev e ≢ e)
  prev_middle =
      let q = Seg-prev l head us e around.0 in
      let ok =
        All-last (λ p. p ≢ null) head us ring.not_null.0
          (All-append_left _ us (e ∷ vs) ring.not_null.1) in
      let away =
        All-last (λ p. e ≢ p) head us Fresh-middle.0
          (All-append_left (λ p. e ≢ p) us vs Fresh-middle.1) in
      (λ h. ok (sym q ∙ h), λ h. away (sym h ∙ q))

  next_middle : (l.next e ≢ null) × (l.next e ≢ e)
  next_middle =
      go vs around.1 (All-append_right _ us (e ∷ vs) ring.not_null.1).1
        (All-append_right (λ p. e ≢ p) us vs Fresh-middle.1)
    where
      go :
          (ws : List Ptr)
          → Seg l e ws head
          → All (λ p. p ≢ null) ws
          → Fresh e ws
          → (l.next e ≢ null) × (l.next e ≢ e)
      go [] t n f = (λ h. ring.not_null.0 (sym t.0 ∙ h), λ h. Fresh-middle.0 (sym h ∙ t.0))
      go (w ∷ ws) t n f = (λ h. n.0 (sym t.0 ∙ h), λ h. f.0 (sym h ∙ t.0))

  -- `queue_del` of an element of a ring does not panic, leaves the ring of the other elements
  -- in their order, and clears the pointers of the element.
  pub queue_del-remove :
      (l' : Links) × (queue_del e l ≡ some l')
      × IsRing l' head (us ++ vs)
      × (is_link_null l' e ≡ true)
  unfolding queue_del is_link_null
  queue_del-remove =
      let u = unlink-Unlinked l e prev_middle.1 next_middle.1 in
      (
        unlink e l,
        ground (arith, prev_middle, next_middle),
        Unlinked-IsRing (unlink e l) u,
        ground (arith, u.next_clear, u.prev_clear),
      )

-- What `queue_out` is to return and leave.
pub record Outcome (xs : List Ptr) (head : Ptr) (r : Option Ptr × Links) : Type 0 where
  pub value : r.0 ≡ last? xs
  pub ring : IsRing r.1 head (init_of xs)
  pub cleared : (z : Ptr) → r.0 ≡ some z → is_link_null r.1 z ≡ true

Seg-next-ne :
    (l : Links) (a : Ptr) (us : List Ptr) (z : Ptr)
    → Seg l a us z
    → a ≢ z
    → Fresh a us
    → l.next a ≢ a
Seg-next-ne l a [] z s n f h = n (sym h ∙ s.0)
Seg-next-ne l a (x ∷ us) z s n f h = f.0 (sym h ∙ s.0)

queue_out-snoc :
    (l : Links) (head : Ptr) (us : List Ptr) (z : Ptr)
    → IsRing l head (us ++ (z ∷ []))
    → Outcome (us ++ (z ∷ [])) head (queue_out head l)
unfolding queue_out is_link_null
queue_out-snoc l head us z ring =
    let sides = around l head us z [] ring in
    let new = Fresh-middle l head us z [] ring in
    let off = λ (h : head ≡ z). new.0 (sym h) in
    let some_left : (l.next head == head) ≡ false = ground (
      arith,
      Seg-next-ne l head us z sides.0 off (All-append_left (λ y. head ≢ y) us _ ring.apart.0),
    ) in
    let u = take_last-Unlinked l head z sides.1.1 (prev_middle l head us z [] ring).1 off in
    let closed =
      Unlinked-IsRing l head us z [] ring (take_last head l)
        (subst (Unlinked l (take_last head l) z) (sym sides.1.0) u) in
    rw some_left (record {
      value = rw (last?-snoc us z) (ap some sides.1.1);
      ring =
          rw (init_of-snoc us z)
            (subst (λ ys. IsRing (take_last head l) head ys) (append-nil us) closed);
      cleared = λ y h. ground (arith, u.next_clear, u.prev_clear, sides.1.1);
    })

-- `queue_out` on a ring returns the last element, or NULL if the ring is empty, leaves the ring
-- without it, and clears the pointers of the element that it returns.
pub queue_out-last :
    (l : Links) (head : Ptr) (xs : List Ptr) → IsRing l head xs → Outcome xs head (queue_out head l)
unfolding queue_out last? init_of
queue_out-last l head xs ring = elim (snoc_cases xs) [
  | inl e ↦
      let none_left : (l.next head == head) ≡ true =
        ground (arith, (subst (λ ys. Seg l head ys head) e ring.chain).0) in
      rw none_left
        (record { value = rw e; ring = rw e (subst (IsRing l head) e ring); cleared = λ y h. cc })
  | inr (us, z, e) ↦ rw e (queue_out-snoc l head us z (subst (IsRing l head) e ring))
]
