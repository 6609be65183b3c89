-- ===== src/Paging/Tables.antt =====
-- What `map_page` of kernel/paging.c does to the translation of every page.
use domin_os.Base.{
  ℕ, suc, ◌+◌, ◌%◌, true, false, Option, none, some, List, [], ◌∷◌, ◌==◌, if◌then◌else◌, ◌≡◌, refl,
  sym, ap, ◌∙◌, ◌≢◌, ◌≤◌, ◌<◌, ◌⊎◌, inl, inr, arith, Bool-cases, All, All-map, All-zip, IsNodup,
  length, Ensures, Ensures-bind,
}
use domin_os.Paging.{
  Memory, pd_index, pt_index, is_present, align, with_present, table_at, store, clear_page,
  ensure_table, map_page, unmap_page,
}

pub List-cases : (xs : List ℕ) → (xs ≡ []) ⊎ ((x : ℕ) × (ys : List ℕ) × (xs ≡ x ∷ ys))
List-cases [] = inl refl
List-cases (x ∷ xs) = inr (x, xs, refl)

-- What the processor finds: the entry for a page, if the directory and the table have it.
abbrev pub entry_at : ℕ → ℕ → ℕ → Memory → Option ℕ
entry_at dir i j mem =
    if is_present (mem.word dir i)
    then if is_present (mem.word (table_at dir i mem) j)
      then some (mem.word (table_at dir i mem) j)
      else none
    else none

abbrev pub translate : ℕ → ℕ → Memory → Option ℕ
translate dir virt mem = entry_at dir (pd_index virt) (pt_index virt) mem

-- The tables of a directory are pages apart from each other, from the directory, and from the pages
-- that are free.
pub record WellMapped (dir : ℕ) (mem : Memory) : Type 0 where
  pub apart :
      (i j : ℕ)
      → i ≢ j
      → is_present (mem.word dir i) ≡ true
      → is_present (mem.word dir j) ≡ true
      → table_at dir i mem ≢ table_at dir j mem
  pub not_dir : (i : ℕ) → is_present (mem.word dir i) ≡ true → table_at dir i mem ≢ dir
  pub unused :
      All
        (λ p. (i : ℕ) → is_present (mem.word dir i) ≡ true → table_at dir i mem ≢ p)
        mem.free_pages
  pub not_free : All (λ p. p ≢ dir) mem.free_pages
  pub distinct : IsNodup mem.free_pages
  pub aligned : All (λ p. p % 4096 ≡ 0) mem.free_pages

-- The same translations, with a table for the entry.
pub record Ensured (dir i : ℕ) (mem mem1 : Memory) : Type 0 where
  pub formed : WellMapped dir mem1
  pub present : is_present (mem1.word dir i) ≡ true
  pub same : (k j : ℕ) → entry_at dir k j mem1 ≡ entry_at dir k j mem
  pub left : length mem.free_pages ≤ suc (length mem1.free_pages)

module _ (dir i flags : ℕ) (mem : Memory) (p : ℕ) (ps : List ℕ) (w : WellMapped dir mem)
    (e : mem.free_pages ≡ p ∷ ps) (small : flags < 4096)
    (gone : is_present (mem.word dir i) ≡ false) where
  abbrev with_table : Memory
  with_table = store dir i (p + with_present flags) (clear_page p (record mem { free_pages = ps }))

  page_apart : p ≢ dir
  page_apart = (rw e at w.not_free).0

  page_aligned : p % 4096 ≡ 0
  page_aligned = (rw e at w.aligned).0

  page_unused : (k : ℕ) → is_present (mem.word dir k) ≡ true → table_at dir k mem ≢ p
  page_unused = (rw e at w.unused).0

  word_here : with_table.word dir i ≡ p + with_present flags
  unfolding store
  word_here = ground arith

  word_there : (k : ℕ) → k ≢ i → with_table.word dir k ≡ mem.word dir k
  unfolding store clear_page
  word_there k n = ground (arith, page_apart)

  table_here : table_at dir i with_table ≡ p
  table_here = rw word_here (omega (arith, page_aligned))

  table_there : (k : ℕ) → k ≢ i → table_at dir k with_table ≡ table_at dir k mem
  table_there k n = ap align (word_there k n)

  present_here : is_present (with_table.word dir i) ≡ true
  present_here = rw word_here (ground (arith, page_aligned))

  table_cases :
      (k : ℕ)
      → is_present (with_table.word dir k) ≡ true
      → ((k ≡ i) × (table_at dir k with_table ≡ p))
        ⊎ ((k ≢ i)
            × (is_present (mem.word dir k) ≡ true)
            × (table_at dir k with_table ≡ table_at dir k mem))
  table_cases k h = elim (Bool-cases (k == i)) [
    | inl s ↦ let s' : k ≡ i = ground arith in inl (s', rw s' table_here)
    | inr s ↦
        let n : k ≢ i = ground arith in
        inr (n, ap is_present (sym (word_there k n)) ∙ h, table_there k n)
  ]

  with_table-WellMapped : WellMapped dir with_table
  unfolding store clear_page
  with_table-WellMapped = record {
    apart = λ k l n h g. elim (table_cases k h) [
      | inl (a, b) ↦ elim (table_cases l g) [
        | inl (c, d) ↦ absurd (n (a ∙ sym c))
        | inr (c, d, f) ↦ λ q. page_unused l d (sym f ∙ sym q ∙ b)
      ]
      | inr (a, b, c) ↦ elim (table_cases l g) [
        | inl (d, f) ↦ λ q. page_unused k b (sym c ∙ q ∙ f)
        | inr (d, f, m) ↦ λ q. w.apart k l n b f (sym c ∙ q ∙ m)
      ]
    ];
    not_dir = λ k h. elim (table_cases k h) [
      | inl (a, b) ↦ λ q. page_apart (sym b ∙ q)
      | inr (a, b, c) ↦ λ q. w.not_dir k b (sym c ∙ q)
    ];
    unused =
        All-map ps
          (λ x h k g. elim (table_cases k g) [
            | inl (a, b) ↦ λ q. h.1 (sym b ∙ q)
            | inr (a, b, c) ↦ λ q. h.0 k b (sym c ∙ q)
          ])
          (All-zip _ _ ps (rw e at w.unused).1 (rw e at w.distinct).0);
    not_free = (rw e at w.not_free).1;
    distinct = (rw e at w.distinct).1;
    aligned = (rw e at w.aligned).1;
  }

  with_table-same : (k j : ℕ) → entry_at dir k j with_table ≡ entry_at dir k j mem
  unfolding store clear_page
  with_table-same k j = elim (Bool-cases (k == i)) [
    | inl s ↦
        let s' : k ≡ i = ground arith in
        let empty : with_table.word p j ≡ 0 = ground (arith, page_apart) in
        rw (s', gone, present_here, table_here, empty) refl
    | inr s ↦
        let n : k ≢ i = ground arith in
        elim (Bool-cases (is_present (mem.word dir k))) [
          | inl h ↦
              let t : with_table.word (table_at dir k mem) j ≡ mem.word (table_at dir k mem) j =
                ground (arith, w.not_dir k h, page_unused k h) in
              rw (word_there k n, t) refl
          | inr h ↦ rw (word_there k n, h) refl
        ]
  ]

pub ensure_table-Ensured :
    (dir i flags : ℕ) (mem : Memory)
    → WellMapped dir mem
    → flags < 4096
    → mem.free_pages ≢ []
    → Ensures (Ensured dir i mem) (ensure_table dir i flags mem)
unfolding ensure_table
ensure_table-Ensured dir i flags mem w small free =
    elim (Bool-cases (is_present (mem.word dir i))) [
      | inl h ↦ rw h (record { formed = w; present = h; same = λ k j. refl; left = omega arith })
      | inr h ↦ rw h (elim (List-cases mem.free_pages) [
        | inl e ↦ absurd (free e)
        | inr (p, ps, e) ↦ rw e (record {
          formed = with_table-WellMapped dir i flags mem p ps w e small h;
          present = present_here dir i flags mem p ps w e small h;
          same = with_table-same dir i flags mem p ps w e small h;
          left = unfold store clear_page in omega arith;
        })
      ])
    ]

module _ (dir i j v : ℕ) (mem : Memory) (w : WellMapped dir mem)
    (here : is_present (mem.word dir i) ≡ true) where
  abbrev stored : Memory
  stored = store (table_at dir i mem) j v mem

  stored_dir : (k : ℕ) → stored.word dir k ≡ mem.word dir k
  unfolding store
  stored_dir k = ground (arith, w.not_dir i here)

  stored-WellMapped : WellMapped dir stored
  unfolding store
  stored-WellMapped = record {
    apart = λ k l n h g q.
        w.apart k l n (ap is_present (sym (stored_dir k)) ∙ h)
          (ap is_present (sym (stored_dir l)) ∙ g)
          (ap align (sym (stored_dir k)) ∙ q ∙ ap align (stored_dir l));
    not_dir = λ k h q.
        w.not_dir k (ap is_present (sym (stored_dir k)) ∙ h) (ap align (sym (stored_dir k)) ∙ q);
    unused =
        All-map mem.free_pages
          (λ x h k g q.
            h k (ap is_present (sym (stored_dir k)) ∙ g) (ap align (sym (stored_dir k)) ∙ q))
          w.unused;
    not_free = w.not_free;
    distinct = w.distinct;
    aligned = w.aligned;
  }

  stored_here : stored.word (table_at dir i stored) j ≡ v
  unfolding store
  stored_here = rw (stored_dir i) (ground arith)

  stored_others : (k l : ℕ) → (k ≢ i) ⊎ (l ≢ j) → entry_at dir k l stored ≡ entry_at dir k l mem
  stored_others k l n = elim (Bool-cases (is_present (mem.word dir k))) [
    | inr h ↦ rw (stored_dir k, h) refl
    | inl h ↦
        let same : stored.word (table_at dir k mem) l ≡ mem.word (table_at dir k mem) l =
          unfold store in
          elim n [ inl a ↦ ground (arith, w.apart k i a h here) | inr b ↦ ground arith ] in
        rw (stored_dir k, same) refl
  ]

-- The page at `virt` has the entry, every other page is as it was, and the tables are well formed.
pub record Mapped (dir virt : ℕ) (entry : Option ℕ) (mem mem1 : Memory) : Type 0 where
  pub formed : WellMapped dir mem1
  pub mapped : translate dir virt mem1 ≡ entry
  pub others :
      (k j : ℕ)
      → (k ≢ pd_index virt) ⊎ (j ≢ pt_index virt)
      → entry_at dir k j mem1 ≡ entry_at dir k j mem
  pub left : length mem.free_pages ≤ suc (length mem1.free_pages)

-- `map_page` to an aligned physical address, in well-formed tables with a free page and flags
-- below 4096, ends without a panic: the page has the physical address with the flags and the
-- present bit, no other page of the directory is changed, at most one free page is used, and the
-- tables are well formed.
pub map_page-Mapped :
    (dir virt phy flags : ℕ) (mem : Memory)
    → WellMapped dir mem
    → flags < 4096
    → phy % 4096 ≡ 0
    → mem.free_pages ≢ []
    → Ensures
        (Mapped dir virt (some (phy + with_present flags)) mem)
        (map_page dir virt phy flags mem)
unfolding map_page
map_page-Mapped dir virt phy flags mem w small a free =
    Ensures-bind (Ensured dir (pd_index virt) mem) _ _ _
      (ensure_table-Ensured dir (pd_index virt) flags mem w small free)
      λ mem1 m.
        let i = pd_index virt in
        let j = pt_index virt in
        let v = phy + with_present flags in
        let odd : is_present v ≡ true = ground arith in
        let dir_same = stored_dir dir i j v mem1 m.formed m.present i in
        let here : is_present ((store (table_at dir i mem1) j v mem1).word dir i) ≡ true =
          ap is_present dir_same ∙ m.present in
        record {
          formed = stored-WellMapped dir i j v mem1 m.formed m.present;
          mapped = rw (here, stored_here dir i j v mem1 m.formed m.present, odd) refl;
          others = λ k l n. stored_others dir i j v mem1 m.formed m.present k l n ∙ m.same k l;
          left = unfold store in m.left;
        }

-- A pass of `unmap_zone` over a page, in well-formed tables, leaves no entry for that page,
-- changes no other, and keeps the tables well formed.
pub unmap_page-Mapped :
    (dir virt : ℕ) (mem : Memory)
    → WellMapped dir mem
    → Mapped dir virt none mem (unmap_page dir virt mem)
unfolding unmap_page
unmap_page-Mapped dir virt mem w =
    let i = pd_index virt in
    let j = pt_index virt in
    elim (Bool-cases (is_present (mem.word dir i))) [
      | inr h ↦
          rw h
            (record { formed = w; mapped = rw h refl; others = λ k l n. refl; left = omega arith })
      | inl h ↦
          let here : is_present ((store (table_at dir i mem) j 0 mem).word dir i) ≡ true =
            ap is_present (stored_dir dir i j 0 mem w h i) ∙ h in
          rw h (record {
            formed = stored-WellMapped dir i j 0 mem w h;
            mapped = rw (here, stored_here dir i j 0 mem w h) refl;
            others = stored_others dir i j 0 mem w h;
            left = unfold store in omega arith;
          })
    ]
