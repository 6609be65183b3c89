-- ===== src/Start/Stack.antt =====
-- Where the stack that kernel/start.c makes is for the process.
use domin_os.Base.{
  ℕ, ◌+◌, ◌-◌, ◌*◌, ◌/◌, ◌%◌, false, Option, some, ◌==◌, ◌>>=◌, ◌≡◌, refl, sym, ap, ◌∙◌, ◌≢◌, ◌≤◌,
  ◌<◌, arith, length, Ensures, Ensures-mono,
}
use domin_os.Paging.{Memory, page_size, align}
use domin_os.Paging.Tables.{WellMapped, translate}
use domin_os.Paging.Zones.{ZoneMapped, map_zone-ZoneMapped}
use domin_os.Start.{
  user_stack_end, ustack_sz_max, real_size, nb_stack_pages, map_stack, fix_stack, stack_word,
}

-- The physical address of a virtual one.
abbrev pub physical : ℕ → ℕ → Memory → Option ℕ
physical dir virt mem = translate dir virt mem >>= λ entry. some (align entry + virt % page_size)

-- The stack pointer with which a process starts: USER_STACK_BEGIN of kernel/usermode.S.
abbrev pub user_stack_begin : ℕ
user_stack_begin = 0xffeffff8

module _ (dir ssize stack_pages : ℕ) (mem : Memory) (w : WellMapped dir mem)
    (small : ssize ≤ ustack_sz_max) (whole : stack_pages % 4096 ≡ 0)
    (free : real_size ssize / 4096 + 1 < length mem.free_pages) where
  abbrev zone_start : ℕ
  zone_start = user_stack_end - real_size ssize + 1

  abbrev pages : ℕ
  pages = user_stack_end / 4096 - zone_start / 4096

  mapped_stack :
      Ensures
        (ZoneMapped dir (align zone_start) pages (align stack_pages) 6 mem)
        (map_stack dir ssize stack_pages mem)
  unfolding map_stack
  mapped_stack =
      map_zone-ZoneMapped 16 dir zone_start user_stack_end stack_pages
        (stack_pages + real_size ssize - 1) 6 mem w (omega arith) (omega arith) (omega arith)
        (omega (arith, free)) (omega arith)

  -- The page of the zone at a place.
  place :
      (m virt phys : ℕ) (mem1 : Memory)
      → ZoneMapped dir (align zone_start) pages (align stack_pages) 6 mem mem1
      → m ≤ pages
      → align zone_start + m * 4096 ≡ virt
      → stack_pages + m * 4096 ≡ phys
      → translate dir virt mem1 ≡ some (phys + 7)
  place m virt phys mem1 z l e f =
      ap (λ x. translate dir x mem1) (sym e) ∙ z.mapped m l ∙ ap some (omega (arith, f))

  -- A stack whose last page is not full.
  module _ (loose : real_size ssize % 4096 ≢ 0) (high : 4096 ≤ stack_pages) where
    abbrev top : ℕ
    top = stack_pages + real_size ssize / 4096 * 4096

    -- For a stack of at most 8192 words whose size with the two extra words is no multiple
    -- of 4096 bytes, at a block of whole pages, in well-formed tables with enough free
    -- pages, the mapping ends; the word to which the first stack pointer of the process
    -- points, and the one after it, are at the physical addresses at which `start_task` then
    -- writes the zero and the argument.
    pub map_stack-stack_word :
        Ensures
          (λ mem1.
            (physical dir user_stack_begin mem1
              ≡ some (stack_word ssize (fix_stack ssize stack_pages) 2))
            × (physical dir (user_stack_begin + 4) mem1
                ≡ some (stack_word ssize (fix_stack ssize stack_pages) 1)))
          (map_stack dir ssize stack_pages mem)
    map_stack-stack_word =
        Ensures-mono (ZoneMapped dir (align zone_start) pages (align stack_pages) 6 mem) _ _
          mapped_stack
          λ mem1 z.
            let fixed : (align stack_pages == 0) ≡ false = ground arith in
            let e : translate dir 0xffeff000 mem1 ≡ some (top + 7) =
              place (real_size ssize / 4096) 0xffeff000 top mem1 z (omega (arith, loose))
                (omega (arith, loose)) refl in
            (
              ap (λ o. o >>= λ entry. some (align entry + 0xff8)) e
                  ∙ ap some (rw fixed (omega (arith, loose))),
              ap (λ o. o >>= λ entry. some (align entry + 0xffc)) e
                  ∙ ap some (rw fixed (omega (arith, loose))),
            )

    -- Under the conditions of the first, the mapping of the stack also maps the page at
    -- USER_STACK_END, for the process to read and write, to the physical page after the ones
    -- allocated for the stack.
    pub map_stack-beyond :
        Ensures
          (λ mem1.
            translate dir user_stack_end mem1
            ≡ some (stack_pages + nb_stack_pages ssize * page_size + 7))
          (map_stack dir ssize stack_pages mem)
    map_stack-beyond =
        Ensures-mono (ZoneMapped dir (align zone_start) pages (align stack_pages) 6 mem) _ _
          mapped_stack
          λ mem1 z.
            place (nb_stack_pages ssize) user_stack_end
              (stack_pages + nb_stack_pages ssize * page_size) mem1 z (omega (arith, loose))
              (omega (arith, loose)) refl

  -- For a stack whose size with the two extra words is a multiple of 4096 bytes, under the
  -- same conditions, the argument is written one page above the physical address at which the
  -- process looks for it.
  pub map_stack-full :
      real_size ssize % 4096 ≡ 0
      → 4096 ≤ stack_pages
      → Ensures
          (λ mem1.
            (a : ℕ) × (physical dir (user_stack_begin + 4) mem1 ≡ some a)
            × (stack_word ssize (fix_stack ssize stack_pages) 1 ≡ a + page_size))
          (map_stack dir ssize stack_pages mem)
  map_stack-full full high =
      Ensures-mono (ZoneMapped dir (align zone_start) pages (align stack_pages) 6 mem) _ _
        mapped_stack
        λ mem1 z.
          let n = real_size ssize / 4096 - 1 in
          let fixed : (align stack_pages == 0) ≡ false = ground arith in
          let e : translate dir 0xffeff000 mem1 ≡ some (stack_pages + n * 4096 + 7) =
            place n 0xffeff000 (stack_pages + n * 4096) mem1 z (omega (arith, full))
              (omega (arith, full)) refl in
          (
            stack_pages + n * 4096 + 0xffc,
            ap (λ o. o >>= λ entry. some (align entry + 0xffc)) e ∙ ap some (omega arith),
            rw fixed (omega (arith, full)),
          )
