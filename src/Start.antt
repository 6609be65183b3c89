-- ===== src/Start.antt =====
-- The stack of a new process: kernel/start.c. The stack pages are the block that
-- `alloc_physical_page` gives, and the kernel sees a physical address under itself.
pub mod Stack
pub mod Tests
use domin_os.Base.{
  ℕ, ◌+◌, ◌-◌, ◌*◌, ◌/◌, ◌%◌, ◌^◌, Bool, true, false, Option, none, some, ◌==◌, ltb, ◌||◌,
  if◌then◌else◌, ◌>>=◌,
}
use domin_os.Paging.{Memory, page_size, align, store, map_zone}

abbrev pub user_start : ℕ
user_start = 0x40000000

abbrev pub user_stack_end : ℕ
user_stack_end = 0xfff00000

abbrev pub ustack_sz_max : ℕ
ustack_sz_max = 8192

abbrev pub extra_stack_space : ℕ
extra_stack_space = 8

-- `ssize` is at most `ustack_sz_max`, so that nothing overflows.
abbrev pub real_size : ℕ → ℕ
real_size ssize = ssize * 4 + extra_stack_space

abbrev pub nb_stack_pages : ℕ → ℕ
nb_stack_pages ssize = real_size ssize / page_size + 1

unfoldable pub map_stack : ℕ → ℕ → ℕ → Memory → Option Memory
map_stack dir ssize stack_pages mem =
    map_zone 16 dir (user_stack_end - real_size ssize + 1) user_stack_end stack_pages
      (stack_pages + real_size ssize - 1) 6 mem

abbrev pub fix_stack : ℕ → ℕ → ℕ
fix_stack ssize stack_pages =
    if align stack_pages == 0
    then stack_pages
    else stack_pages + (page_size - real_size ssize % page_size)

-- The address of `stack_end[size_in_words - i]`.
abbrev pub stack_word : ℕ → ℕ → ℕ → ℕ
stack_word ssize stack_end i = stack_end + 4 * (real_size ssize / 4 - i)

unfoldable pub store_word : ℕ → ℕ → Memory → Memory
store_word addr v mem = store (align addr) (addr / 4 % 1024) v mem

unfoldable pub fill_stack : ℕ → ℕ → ℕ → Memory → Memory
fill_stack ssize stack_end arg mem = store_word (stack_word ssize stack_end 3) user_start (
    store_word (stack_word ssize stack_end 2) 0 (store_word (stack_word ssize stack_end 1) arg mem))

unfoldable pub make_stack : ℕ → ℕ → ℕ → ℕ → Memory → Option Memory
make_stack dir ssize arg stack_pages mem = do
  mem1 ← map_stack dir ssize stack_pages mem
  some (fill_stack ssize (fix_stack ssize stack_pages) arg mem1)
