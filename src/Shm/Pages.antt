-- ===== src/Shm/Pages.antt =====
-- The invariant of the shared pages of kernel/shm.c.
use domin_os.Base.{
  ℕ, ◌+◌, ◌%◌, ◌^◌, Bool, true, false, Option, none, some, ◌≡◌, sym, ap, subst, ◌∙◌, ◌≢◌, ◌<◌, ◌⊎◌,
  inl, inr, arith, Bool-cases,
}
use domin_os.Hash.{HashMap}
use domin_os.Hash.Models.{IsMap, update}
use domin_os.Paging.{Memory}
use domin_os.Shm.{Shp, Shm, page_max, set_slot, set_shp}
use domin_os.Shm.Slots.{slot_address}

-- A page that is in use: it has a slot of its own, and references.
pub record IsPage (shm : Shm) (p : ℕ) : Type 0 where
  pub positive : 0 < p
  pub below : p < shm.next_shp
  pub slot : ℕ
  pub slot_small : slot < page_max
  pub slot_used : shm.virtual_map slot ≡ true
  pub at : (shm.shps p).virtual_address ≡ slot_address slot
  pub aligned : (shm.shps p).physical_address % 4096 ≡ 0
  pub referred : 0 < (shm.shps p).refcount
  pub countable : (shm.shps p).refcount < 2 ^ 64

-- The table stands for a map of keys to pages, and the keys of one address are equal.
pub record IsShm (shm : Shm) (f : ℕ → Option ℕ) : Type 0 where
  pub table : IsMap shm.shp_table f
  pub next_positive : 0 < shm.next_shp
  pub pages : (q p : ℕ) → f q ≡ some p → IsPage shm p
  pub apart :
      (q q' p p' : ℕ)
      → f q ≡ some p
      → f q' ≡ some p'
      → (shm.shps p).virtual_address ≡ (shm.shps p').virtual_address
      → shm.shp_table.cmp q q' ≡ true

abbrev num_of : Option ℕ → ℕ
num_of none = 0
num_of (some p) = p

pub update-cases :
    (cmp : ℕ → ℕ → Bool) (key : ℕ) (o : Option ℕ) (f : ℕ → Option ℕ) (q p : ℕ)
    → update cmp key o f q ≡ some p
    → ((cmp key q ≡ true) × (o ≡ some p)) ⊎ ((cmp key q ≡ false) × (f q ≡ some p))
update-cases cmp key o f q p e = elim (Bool-cases (cmp key q)) [
  | inl y ↦ inl (y, (rw y at e))
  | inr y ↦ inr (y, (rw y at e))
]

-- A new page.
module _ (shm : Shm) (f : ℕ → Option ℕ) (w : IsShm shm f) (key s physical : ℕ) (map' : HashMap)
    (mem' : Memory) (small : s < page_max) (free : shm.virtual_map s ≡ false)
    (whole : physical % 4096 ≡ 0) (same : map'.cmp ≡ shm.shp_table.cmp)
    (m : IsMap map' (update shm.shp_table.cmp key (some shm.next_shp) f)) where
  abbrev pub new_shp : Shp
  new_shp = record {
    physical_address = physical;
    virtual_address = slot_address s;
    refcount = 1;
    key = key;
  }

  abbrev pub with_page : Shm
  with_page = record {
    virtual_map = set_slot s true shm.virtual_map;
    shp_table = map';
    shps = set_shp shm.next_shp new_shp shm.shps;
    next_shp = shm.next_shp + 1;
    mem = mem';
  }

  pub new_here : with_page.shps shm.next_shp ≡ new_shp
  new_here = ground arith

  new_there : (p : ℕ) → p < shm.next_shp → with_page.shps p ≡ shm.shps p
  new_there p l = ground arith

  new-IsPage : IsPage with_page shm.next_shp
  new-IsPage = record {
    positive = w.next_positive;
    below = omega arith;
    slot = s;
    slot_small = small;
    slot_used = ground arith;
    at = ap (λ x. x.virtual_address) new_here;
    aligned = subst (λ x. x.physical_address % 4096 ≡ 0) (sym new_here) whole;
    referred = subst (λ x. 0 < x.refcount) (sym new_here) (omega arith);
    countable = subst (λ x. x.refcount < 2 ^ 64) (sym new_here) (omega arith);
  }

  kept-IsPage : (p : ℕ) → IsPage shm p → IsPage with_page p
  kept-IsPage p i =
      let e = new_there p i.below in
      record {
        positive = i.positive;
        below = omega (arith, i.below);
        slot = i.slot;
        slot_small = i.slot_small;
        slot_used = ground (arith, i.slot_used);
        at = ap (λ x. x.virtual_address) e ∙ i.at;
        aligned = subst (λ x. x.physical_address % 4096 ≡ 0) (sym e) i.aligned;
        referred = subst (λ x. 0 < x.refcount) (sym e) i.referred;
        countable = subst (λ x. x.refcount < 2 ^ 64) (sym e) i.countable;
      }

  -- The new address is no address of an old page.
  new_apart :
      (p : ℕ)
      → IsPage shm p
      → (with_page.shps p).virtual_address ≢ (with_page.shps shm.next_shp).virtual_address
  new_apart p i q =
      let e : slot_address i.slot ≡ slot_address s =
        sym i.at
        ∙ sym (ap (λ x. x.virtual_address) (new_there p i.below))
        ∙ q
        ∙ ap (λ x. x.virtual_address) new_here in
      let same_slot : i.slot ≡ s = omega arith in
      absurd (ground (arith, sym i.slot_used ∙ ap shm.virtual_map same_slot ∙ free))

  pub with_page-IsShm : IsShm with_page (update shm.shp_table.cmp key (some shm.next_shp) f)
  with_page-IsShm = record {
    table = m;
    next_positive = omega arith;
    pages = λ q p e. elim (update-cases shm.shp_table.cmp key (some shm.next_shp) f q p e) [
      | inl (c, n) ↦ subst (IsPage with_page) (ap num_of n) new-IsPage
      | inr (c, n) ↦ kept-IsPage p (w.pages q p n)
    ];
    apart = λ q q' p p' e e' v.
        subst (λ c. c q q' ≡ true) (sym same)
          (elim (update-cases shm.shp_table.cmp key (some shm.next_shp) f q p e) [
            | inl (c, n) ↦
                elim (update-cases shm.shp_table.cmp key (some shm.next_shp) f q' p' e') [
                  | inl (c', n') ↦
                      w.table.table.keying.cmp_trans q key q'
                        (w.table.table.keying.cmp_symm key q c) c'
                  | inr (c', n') ↦ absurd (
                      new_apart p' (w.pages q' p' n') (
                        sym (
                          subst
                            (λ x.
                              (with_page.shps x).virtual_address
                              ≡ (with_page.shps p').virtual_address)
                            (sym (ap num_of n)) v)))
                ]
            | inr (c, n) ↦
                elim (update-cases shm.shp_table.cmp key (some shm.next_shp) f q' p' e') [
                  | inl (c', n') ↦ absurd (
                      new_apart p (w.pages q p n) (
                        subst
                          (λ x.
                            (with_page.shps p).virtual_address ≡ (with_page.shps x).virtual_address)
                          (sym (ap num_of n')) v))
                  | inr (c', n') ↦ w.apart q q' p p' n n' (
                      sym (ap (λ x. x.virtual_address) (new_there p (w.pages q p n).below))
                      ∙ v
                      ∙ ap (λ x. x.virtual_address) (new_there p' (w.pages q' p' n').below))
                ]
          ]);
  }
