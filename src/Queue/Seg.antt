-- ===== src/Queue/Seg.antt =====
-- Doubly linked segments, and what the writes of queue.h do to them.
use domin_os.Base.{◌≡◌, ◌≢◌, List, [], ◌∷◌, ◌++◌, arith, ◌∙◌, All, All-last, IsNodup, last_or}
use domin_os.Queue.{Ptr, null, Links}

-- From `a`, not itself listed, through the links `xs` to `b`, in both directions.
abbrev pub Seg : Links → Ptr → List Ptr → Ptr → Type 0
Seg l a [] b = (l.next a ≡ b) × (l.prev b ≡ a)
Seg l a (x ∷ xs) b = (l.next a ≡ x) × (l.prev x ≡ a) × Seg l x xs b

pub record IsRing (l : Links) (head : Ptr) (xs : List Ptr) : Type 0 where
  pub chain : Seg l head xs head
  pub apart : IsNodup (head ∷ xs)
  pub not_null : All (λ p. p ≢ null) (head ∷ xs)

pub Seg-prev :
    (l : Links) (a : Ptr) (us : List Ptr) (c : Ptr) → Seg l a us c → l.prev c ≡ last_or a us
Seg-prev l a [] c s = s.1
Seg-prev l a (x ∷ xs) c s = Seg-prev l x xs c s.2

pub Seg-append :
    (l : Links) (a : Ptr) (us : List Ptr) (c : Ptr) (vs : List Ptr) (b : Ptr)
    → Seg l a us c
    → Seg l c vs b
    → Seg l a (us ++ (c ∷ vs)) b
Seg-append l a [] c vs b s t = (s.0, s.1, t)
Seg-append l a (x ∷ us) c vs b s t = (s.0, s.1, Seg-append l x us c vs b s.2 t)

pub Seg-split :
    (l : Links) (a : Ptr) (us : List Ptr) (c : Ptr) (vs : List Ptr) (b : Ptr)
    → Seg l a (us ++ (c ∷ vs)) b
    → Seg l a us c × Seg l c vs b
Seg-split l a [] c vs b s = ((s.0, s.1), s.2)
Seg-split l a (x ∷ us) c vs b s = let r = Seg-split l x us c vs b s.2 in ((s.0, s.1, r.0), r.1)

module _ (l l' : Links) where
  -- A segment survives writes elsewhere.
  pub Seg-frame :
      (a : Ptr) (xs : List Ptr) (b : Ptr)
      → Seg l a xs b
      → All (λ p. l'.next p ≡ l.next p) (a ∷ xs)
      → All (λ p. l'.prev p ≡ l.prev p) xs
      → l'.prev b ≡ l.prev b
      → Seg l' a xs b
  Seg-frame a [] b s n p e = (n.0 ∙ s.0, e ∙ s.1)
  Seg-frame a (x ∷ xs) b s n p e = (n.0 ∙ s.0, p.0 ∙ s.1, Seg-frame x xs b s.2 n.1 p.1 e)

  -- A segment that led to `c` leads to `m` once its last link and `m` are joined.
  pub Seg-relink :
      (a : Ptr) (us : List Ptr) (c m : Ptr)
      → Seg l a us c
      → IsNodup (a ∷ us)
      → l'.next (l.prev c) ≡ m
      → l'.prev m ≡ l.prev c
      → All (λ p. p ≢ l.prev c → l'.next p ≡ l.next p) (a ∷ us)
      → All (λ p. l'.prev p ≡ l.prev p) us
      → Seg l' a us m
  Seg-relink a [] c m s d en ep n p = (ground arith, ground arith)
  Seg-relink a (x ∷ us) c m s d en ep n p =
      let far = All-last (λ y. a ≢ y) x us d.0.0 d.0.1 in
      let e = Seg-prev l x us c s.2 in
      (n.0 (λ q. far (q ∙ e)) ∙ s.0, p.0 ∙ s.1, Seg-relink x us c m s.2 d.1 en ep n.1 p.1)
