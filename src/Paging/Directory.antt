-- ===== src/Paging/Directory.antt =====
-- The page directory of a process: page_directory_create and page_directory_destroy of
-- kernel/paging.c. `pgdir` is the directory of the boot code; free_physical_page(p, 1) puts `p` in
-- front of the free pages.
use domin_os.Base.{
  ℕ, zero, suc, ◌+◌, ◌%◌, true, false, ◌&&◌, ltb, leb, Option, none, some, List, [], ◌∷◌, ◌==◌,
  if◌then◌else◌, ◌≡◌, refl, sym, ap, subst, ◌∙◌, ◌≢◌, ◌≤◌, inl, inr, arith, Bool-cases, All,
  All-map, IsNodup, Ensures,
}
use domin_os.Paging.{Memory, is_present, align, table_at, store, clear_page}
use domin_os.Paging.Tables.{WellMapped, List-cases}

-- The loop of `page_directory_create`, for the `n` entries from `i` on.
unfoldable pub copy_entries : ℕ → ℕ → ℕ → (ℕ → ℕ) → Memory → Memory
copy_entries zero i dir pgdir mem = mem
copy_entries (suc n) i dir pgdir mem = copy_entries n (suc i) dir pgdir (store dir i (pgdir i) mem)

unfoldable pub page_directory_create : (ℕ → ℕ) → Memory → Option (ℕ × Memory)
page_directory_create pgdir mem = elim mem.free_pages [
  | [] ↦ none
  | dir ∷ ps ↦
      some (dir, copy_entries 64 0 dir pgdir (clear_page dir (record mem { free_pages = ps })))
]

abbrev pub give_back : ℕ → Memory → Memory
give_back page mem = record mem { free_pages = page ∷ mem.free_pages }

abbrev pub free_table : ℕ → ℕ → Memory → Memory
free_table dir i mem =
    if is_present (mem.word dir i) then give_back (table_at dir i mem) mem else mem

-- The loop of `page_directory_destroy`.
unfoldable pub free_tables : ℕ → ℕ → ℕ → Memory → Memory
free_tables zero i dir mem = mem
free_tables (suc n) i dir mem = free_tables n (suc i) dir (free_table dir i mem)

unfoldable pub page_directory_destroy : ℕ → Memory → Memory
page_directory_destroy dir mem = give_back dir (free_tables 960 64 dir mem)

copy_entries-word :
    (n i dir : ℕ) (pgdir : ℕ → ℕ) (mem : Memory) (q j : ℕ)
    → (copy_entries n i dir pgdir mem).word q j
      ≡ (if (q == dir) && (leb i j && ltb j (i + n)) then pgdir j else mem.word q j)
unfolding copy_entries
copy_entries-word zero i dir pgdir mem q j = ground arith
copy_entries-word (suc n) i dir pgdir mem q j =
    copy_entries-word n (suc i) dir pgdir (store dir i (pgdir i) mem) q j
    ∙ (unfold store in
        elim (Bool-cases (j == i)) [
          | inl e ↦ let s : j ≡ i = ground arith in rw s (ground arith)
          | inr e ↦ ground arith
        ])

copy_entries-free_pages :
    (n i dir : ℕ) (pgdir : ℕ → ℕ) (mem : Memory)
    → (copy_entries n i dir pgdir mem).free_pages ≡ mem.free_pages
unfolding copy_entries store
copy_entries-free_pages zero i dir pgdir mem = refl
copy_entries-free_pages (suc n) i dir pgdir mem =
    copy_entries-free_pages n (suc i) dir pgdir (store dir i (pgdir i) mem)

free_tables-none :
    (n i dir : ℕ) (mem : Memory)
    → ((j : ℕ) → i ≤ j → is_present (mem.word dir j) ≡ false)
    → free_tables n i dir mem ≡ mem
unfolding free_tables
free_tables-none zero i dir mem h = refl
free_tables-none (suc n) i dir mem h =
    let e : free_table dir i mem ≡ mem = rw (h i (omega arith)) refl in
    ap (free_tables n (suc i) dir) e ∙ free_tables-none n (suc i) dir mem (λ j l. h j (omega arith))

-- The tables of the boot code are pages apart from each other, and not free.
pub record IsBoot (pgdir : ℕ → ℕ) (mem : Memory) : Type 0 where
  pub apart :
      (i j : ℕ)
      → i ≢ j
      → is_present (pgdir i) ≡ true
      → is_present (pgdir j) ≡ true
      → align (pgdir i) ≢ align (pgdir j)
  pub used : All (λ p. (i : ℕ) → is_present (pgdir i) ≡ true → align (pgdir i) ≢ p) mem.free_pages
  pub distinct : IsNodup mem.free_pages
  pub aligned : All (λ p. p % 4096 ≡ 0) mem.free_pages

module _ (pgdir : ℕ → ℕ) (mem : Memory) (dir : ℕ) (ps : List ℕ)
    (e : mem.free_pages ≡ dir ∷ ps) where
  abbrev created : Memory
  created = copy_entries 64 0 dir pgdir (clear_page dir (record mem { free_pages = ps }))

  page_directory_create-created : page_directory_create pgdir mem ≡ some (dir, created)
  unfolding page_directory_create
  page_directory_create-created =
      ap
        (λ xs. elim xs [
          | [] ↦ none
          | q ∷ qs ↦
              some (q, copy_entries 64 0 q pgdir (clear_page q (record mem { free_pages = qs })))
        ])
        e

  created-entry : (j : ℕ) → created.word dir j ≡ (if ltb j 64 then pgdir j else 0)
  unfolding clear_page
  created-entry j =
      copy_entries-word 64 0 dir pgdir (clear_page dir (record mem { free_pages = ps })) dir j
      ∙ ground arith

  created-present :
      (j : ℕ)
      → is_present (created.word dir j) ≡ true
      → (is_present (pgdir j) ≡ true) × (table_at dir j created ≡ align (pgdir j))
  created-present j h = elim (Bool-cases (ltb j 64)) [
    | inl l ↦ let s = created-entry j ∙ rw l refl in (ap is_present (sym s) ∙ h, ap align s)
    | inr l ↦
        let s : created.word dir j ≡ 0 = created-entry j ∙ rw l refl in
        absurd (ground (arith, ap is_present (sym s) ∙ h))
  ]

  created-free_pages : created.free_pages ≡ ps
  unfolding clear_page
  created-free_pages =
      copy_entries-free_pages 64 0 dir pgdir (clear_page dir (record mem { free_pages = ps }))

  created-WellMapped : IsBoot pgdir mem → WellMapped dir created
  created-WellMapped b =
      let used =
        subst (All (λ p. (i : ℕ) → is_present (pgdir i) ≡ true → align (pgdir i) ≢ p)) e b.used in
      let distinct = subst IsNodup e b.distinct in
      record {
        apart = λ i j n h g q.
            let (a, s) = created-present i h in
            let (c, t) = created-present j g in b.apart i j n a c (sym s ∙ q ∙ t);
        not_dir = λ i h q. let (a, s) = created-present i h in used.0 i a (sym s ∙ q);
        unused =
            subst
              (All (λ p.
                (i : ℕ) → is_present (created.word dir i) ≡ true → table_at dir i created ≢ p))
              (sym created-free_pages)
              (All-map ps (λ p f i h q. let (a, s) = created-present i h in f i a (sym s ∙ q))
                used.1);
        not_free =
            subst (All (λ p. p ≢ dir)) (sym created-free_pages)
              (All-map ps (λ p f q. f (sym q)) distinct.0);
        distinct = subst IsNodup (sym created-free_pages) distinct.1;
        aligned =
            subst (All (λ p. p % 4096 ≡ 0)) (sym created-free_pages)
              (subst (All (λ p. p % 4096 ≡ 0)) e b.aligned).1;
      }

-- With a free page, and tables of the boot code that are pages apart from each other and from
-- the free pages, `page_directory_create` ends and returns the first free page as a directory
-- with the first 64 entries of the boot code and no other, whose tables are well formed.
pub page_directory_create-WellMapped :
    (pgdir : ℕ → ℕ) (mem : Memory)
    → IsBoot pgdir mem
    → mem.free_pages ≢ []
    → Ensures
        (λ r.
          WellMapped r.0 r.1
          × ((j : ℕ) → r.1.word r.0 j ≡ (if ltb j 64 then pgdir j else 0))
          × (mem.free_pages ≡ r.0 ∷ r.1.free_pages))
        (page_directory_create pgdir mem)
page_directory_create-WellMapped pgdir mem b free = elim (List-cases mem.free_pages) [
  | inl e ↦ absurd (free e)
  | inr (dir, ps, e) ↦
      subst
        (Ensures (λ r.
          WellMapped r.0 r.1
          × ((j : ℕ) → r.1.word r.0 j ≡ (if ltb j 64 then pgdir j else 0))
          × (mem.free_pages ≡ r.0 ∷ r.1.free_pages)))
        (sym (page_directory_create-created pgdir mem dir ps e))
        (
          created-WellMapped pgdir mem dir ps e b,
          created-entry pgdir mem dir ps e,
          e ∙ ap (λ x. dir ∷ x) (sym (created-free_pages pgdir mem dir ps e)),
        )
]

-- A directory that was never used.
pub page_directory_destroy-page_directory_create :
    (pgdir : ℕ → ℕ) (mem : Memory)
    → mem.free_pages ≢ []
    → Ensures
        (λ r. (page_directory_destroy r.0 r.1).free_pages ≡ mem.free_pages)
        (page_directory_create pgdir mem)
unfolding page_directory_destroy
page_directory_destroy-page_directory_create pgdir mem free = elim (List-cases mem.free_pages) [
  | inl e ↦ absurd (free e)
  | inr (dir, ps, e) ↦
      let c = created pgdir mem dir ps e in
      let same = free_tables-none 960 64 dir c (λ j l.
        let s : c.word dir j ≡ 0 = created-entry pgdir mem dir ps e j ∙ ground arith in
        ap is_present s) in
      subst (Ensures (λ r. (page_directory_destroy r.0 r.1).free_pages ≡ mem.free_pages))
        (sym (page_directory_create-created pgdir mem dir ps e))
        (ap (λ m. dir ∷ m.free_pages) same
          ∙ ap (λ x. dir ∷ x) (created-free_pages pgdir mem dir ps e)
          ∙ sym e)
]
