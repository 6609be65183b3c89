-- ===== src/Shm/Counts.antt =====
-- A shared page whose number of references changes, and one that is given back.
use domin_os.Base.{
  ℕ, ◌%◌, ◌^◌, true, false, Option, none, some, ◌==◌, ◌≡◌, sym, ap, subst, ◌∙◌, ◌≢◌, ◌<◌, inl, inr,
  arith, Bool-cases,
}
use domin_os.Hash.{HashMap}
use domin_os.Hash.Models.{IsMap, update}
use domin_os.Paging.{Memory}
use domin_os.Shm.{Shm, set_shp, free_memory}
use domin_os.Shm.Slots.{slot_address, slot_address-index}
use domin_os.Shm.Pages.{IsPage, IsShm, update-cases}

module _ (shm : Shm) (f : ℕ → Option ℕ) (w : IsShm shm f) (p n : ℕ) (mem' : Memory) where
  abbrev pub with_count : Shm
  with_count = record shm {
    shps = set_shp p (record (shm.shps p) { refcount = n }) shm.shps;
    mem = mem';
  }

  pub count_here : with_count.shps p ≡ record (shm.shps p) { refcount = n }
  count_here = ground arith

  pub count_there : (q : ℕ) → q ≢ p → with_count.shps q ≡ shm.shps q
  count_there q d = ground arith

  pub same_address : (q : ℕ) → (with_count.shps q).virtual_address ≡ (shm.shps q).virtual_address
  same_address q = elim (Bool-cases (q == p)) [
    | inl e ↦ let e' : q ≡ p = ground arith in rw e' (ap (λ x. x.virtual_address) count_here)
    | inr e ↦ ap (λ x. x.virtual_address) (count_there q (ground arith))
  ]

  pub same_physical : (q : ℕ) → (with_count.shps q).physical_address ≡ (shm.shps q).physical_address
  same_physical q = elim (Bool-cases (q == p)) [
    | inl e ↦ let e' : q ≡ p = ground arith in rw e' (ap (λ x. x.physical_address) count_here)
    | inr e ↦ ap (λ x. x.physical_address) (count_there q (ground arith))
  ]

  module _ (low : 0 < n) (high : n < 2 ^ 64) where
    count_range :
        (q : ℕ)
        → IsPage shm q
        → (0 < (with_count.shps q).refcount) × ((with_count.shps q).refcount < 2 ^ 64)
    count_range q i = elim (Bool-cases (q == p)) [
      | inl e ↦
          let e' : q ≡ p = ground arith in
          let here = ap (λ x. (with_count.shps x).refcount) e' ∙ ap (λ x. x.refcount) count_here in
          (subst (λ x. 0 < x) (sym here) low, subst (λ x. x < 2 ^ 64) (sym here) high)
      | inr e ↦
          let there = ap (λ x. x.refcount) (count_there q (ground arith)) in
          (
            subst (λ x. 0 < x) (sym there) i.referred,
            subst (λ x. x < 2 ^ 64) (sym there) i.countable,
          )
    ]

    counted-IsPage : (q : ℕ) → IsPage shm q → IsPage with_count q
    counted-IsPage q i = record {
      positive = i.positive;
      below = i.below;
      slot = i.slot;
      slot_small = i.slot_small;
      slot_used = i.slot_used;
      at = same_address q ∙ i.at;
      aligned = subst (λ x. x % 4096 ≡ 0) (sym (same_physical q)) i.aligned;
      referred = (count_range q i).0;
      countable = (count_range q i).1;
    }

    pub with_count-IsShm : IsShm with_count f
    with_count-IsShm = record {
      table = w.table;
      next_positive = w.next_positive;
      pages = λ q p' e. counted-IsPage p' (w.pages q p' e);
      apart = λ q q' a b e e' v. w.apart q q' a b e e' (sym (same_address a) ∙ v ∙ same_address b);
    }

-- The last reference to a page is released.
module _ (shm : Shm) (f : ℕ → Option ℕ) (w : IsShm shm f) (key p : ℕ) (map' : HashMap)
    (mem' : Memory) (e : f key ≡ some p) (same : map'.cmp ≡ shm.shp_table.cmp)
    (m : IsMap map' (update shm.shp_table.cmp key none f)) where
  abbrev pub without_page : Shm
  without_page = record shm {
    shp_table = map';
    virtual_map = free_memory (shm.shps p).virtual_address shm.virtual_map;
    mem = mem';
  }

  other-IsPage :
      (q p' : ℕ) → f q ≡ some p' → shm.shp_table.cmp key q ≡ false → IsPage without_page p'
  other-IsPage q p' e' d =
      let i = w.pages q p' e' in
      let mine = w.pages key p e in
      let apart : i.slot ≢ mine.slot = λ s. absurd (
        ground
          (arith, w.apart key q p p' e e' (mine.at ∙ ap slot_address (sym s) ∙ sym i.at), d)) in
      record {
        positive = i.positive;
        below = i.below;
        slot = i.slot;
        slot_small = i.slot_small;
        slot_used =
            rw (mine.at, slot_address-index mine.slot mine.slot_small)
              (ground (arith, i.slot_used));
        at = i.at;
        aligned = i.aligned;
        referred = i.referred;
        countable = i.countable;
      }

  pub without_page-IsShm : IsShm without_page (update shm.shp_table.cmp key none f)
  without_page-IsShm = record {
    table = m;
    next_positive = w.next_positive;
    pages = λ q p' u. elim (update-cases shm.shp_table.cmp key none f q p' u) [
      | inl (c, z) ↦ cc
      | inr (c, z) ↦ other-IsPage q p' z c
    ];
    apart = λ q q' a b u u' v.
        subst (λ c. c q q' ≡ true) (sym same)
          (elim (update-cases shm.shp_table.cmp key none f q a u) [
            | inl (c, z) ↦ cc
            | inr (c, z) ↦ elim (update-cases shm.shp_table.cmp key none f q' b u') [
              | inl (c', z') ↦ cc
              | inr (c', z') ↦ w.apart q q' a b z z' v
            ]
          ]);
  }
