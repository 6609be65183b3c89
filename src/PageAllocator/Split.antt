-- ===== src/PageAllocator/Split.antt =====
-- The second loop of `alloc_physical_page` of kernel/page_allocator.c.
use domin_os.Base.{
  ℕ, zero, suc, ◌+◌, List, [], ◌∷◌, ◌==◌, ◌≡◌, refl, sym, ap, subst, ◌∙◌, ◌≤◌, ◌<◌, arith, inl, inr,
  Bool-cases, All,
}
use domin_os.PageAllocator.{FreeArea, map_size, shift, put_list, flip, split_block, split_down}
use domin_os.PageAllocator.Cover.{
  inside, in_list, cover, put_list-here, put_list-there, cover-put_list,
}
use domin_os.PageAllocator.Blocks.{IsAligned, split-IsAligned}

-- Every free block is at a multiple of its size.
abbrev pub IsArea : FreeArea → Type 0
IsArea area = (i : ℕ) → i < map_size → All (IsAligned (i + shift)) (area.map i)

pub put_list-IsArea :
    (i : ℕ) (xs : List ℕ) (area : FreeArea)
    → IsArea area
    → All (IsAligned (i + shift)) xs
    → IsArea (put_list i xs area)
put_list-IsArea i xs area w a j l = elim (Bool-cases (j == i)) [
  | inl e ↦
      let same : i ≡ j = ground arith in
      subst (λ x. All (IsAligned (x + shift)) ((put_list i xs area).map x)) same
        (subst (All (IsAligned (i + shift))) (sym (put_list-here i xs area)) a)
  | inr e ↦
      subst (All (IsAligned (j + shift))) (sym (put_list-there i j xs area (ground arith))) (w j l)
]

-- The same pages are free.
abbrev pub SameCover : FreeArea → FreeArea → Type 0
SameCover area area' = (q : ℕ) → cover area' q ≡ cover area q

module _ (i b : ℕ) (bs : List ℕ) (area : FreeArea) (w : IsArea area) (l : suc i < map_size)
    (e : area.map (suc i) ≡ b ∷ bs) (n : area.map i ≡ []) where
  abbrev halved : FreeArea
  halved = put_list i (b ∷ flip (i + shift) b ∷ []) (put_list (suc i) bs area)

  whole-IsAligned : IsAligned (suc (i + shift)) b
  whole-IsAligned =
      let a = (subst (All (IsAligned (suc i + shift))) e (w (suc i) l)).0 in
      let s : suc i + shift ≡ suc (i + shift) = omega arith in subst (λ k. IsAligned k b) s a

  halved-IsArea : IsArea halved
  halved-IsArea =
      let (f, a, c, d) = split-IsAligned (i + shift) b whole-IsAligned in
      put_list-IsArea i _ (put_list (suc i) bs area)
        (put_list-IsArea (suc i) bs area w
          (subst (All (IsAligned (suc i + shift))) e (w (suc i) l)).1)
        (a, (c, tt))

  halved-SameCover : SameCover area halved
  halved-SameCover q =
      let (f, a, c, d) = split-IsAligned (i + shift) b whole-IsAligned in
      let s : suc i + shift ≡ suc (i + shift) = omega arith in
      let upper = cover-put_list (suc i) bs area q l in
      let lower =
        cover-put_list i (b ∷ flip (i + shift) b ∷ []) (put_list (suc i) bs area) q (omega arith) in
      let kept : (put_list (suc i) bs area).map i ≡ [] =
        put_list-there (suc i) i bs area (omega arith) ∙ n in
      let was = ap (λ xs. in_list (suc i + shift) xs q) e in
      let none = ap (λ xs. in_list (i + shift) xs q) kept in
      let whole = ap (λ k. inside k b q) s in omega (arith, upper, lower, was, none, whole, d q)

-- After the loop there is a block of the size that is asked for.
pub record IsSplit (index : ℕ) (area area' : FreeArea) : Type 0 where
  pub formed : IsArea area'
  pub same : SameCover area area'
  pub block : ℕ
  pub blocks : List ℕ
  pub found : area'.map index ≡ block ∷ blocks
  pub kept : area'.nb_alloc ≡ area.nb_alloc

pub split_down-IsSplit :
    (n index top b : ℕ) (bs : List ℕ) (area : FreeArea)
    → top ≡ index + n
    → top < map_size
    → IsArea area
    → area.map top ≡ b ∷ bs
    → ((j : ℕ) → index ≤ j → j < top → area.map j ≡ [])
    → IsSplit index area (split_down n index area)
unfolding split_down put_list
split_down-IsSplit zero index top b bs area t l w e empty = record {
  formed = w;
  same = λ q. refl;
  block = b;
  blocks = bs;
  found = subst (λ x. area.map x ≡ b ∷ bs) (omega (arith, t)) e;
  kept = refl;
}
split_down-IsSplit (suc n) index top b bs area t l w e empty =
    let i = index + n in
    let e' : area.map (suc i) ≡ b ∷ bs = subst (λ x. area.map x ≡ b ∷ bs) (omega (arith, t)) e in
    let none = empty i (omega arith) (omega arith) in
    let l' : suc i < map_size = omega arith in
    let area1 = put_list i (b ∷ flip (i + shift) b ∷ []) (put_list (suc i) bs area) in
    let step : split_block i (area.map (suc i)) area ≡ area1 =
      ap (λ xs. split_block i xs area) e' in
    let rest =
      split_down-IsSplit n index i b (flip (i + shift) b ∷ []) area1 refl (omega arith)
        (halved-IsArea i b bs area w l' e' none) (put_list-here i _ (put_list (suc i) bs area))
        (λ j a c.
          put_list-there i j _ (put_list (suc i) bs area) (omega arith)
          ∙ put_list-there (suc i) j bs area (omega arith)
          ∙ empty j a (omega arith)) in
    subst (λ x. IsSplit index area (split_down n index x)) (sym step)
      (record {
        formed = rest.formed;
        same = λ q. rest.same q ∙ halved-SameCover i b bs area w l' e' none q;
        block = rest.block;
        blocks = rest.blocks;
        found = rest.found;
        kept = rest.kept;
      })
