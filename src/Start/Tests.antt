-- ===== src/Start/Tests.antt =====
-- Runs of the stack of a new process, and the theorems at two stacks.
use domin_os.Base.{ℕ, ◌+◌, ◌*◌, ◌/◌, ◌%◌, some, ◌>>=◌, ◌≡◌, refl, arith, Ensures}
use domin_os.Paging.{page_size, map_page, map_zone, map_from, ensure_table, store, clear_page}
use domin_os.Paging.Tables.{translate}
use domin_os.Shm.Tests.{blank, blank-WellMapped}
use domin_os.Start.{
  user_stack_end, map_stack, fix_stack, stack_word, store_word, fill_stack, make_stack,
}
use domin_os.Start.Stack.{
  physical, user_stack_begin, map_stack-stack_word, map_stack-beyond, map_stack-full,
}

-- The argument of a process with two words of stack is where it looks for it.
finds_argument :
    (make_stack 4096 2 77 0x4000000 blank >>= λ m.
    physical 4096 (user_stack_begin + 4) m >>= λ a. some (m.word (a / 4096 * 4096) (a / 4 % 1024)))
    ≡ some 77
unfolding make_stack map_stack map_zone map_from map_page ensure_table store clear_page fill_stack
    store_word
finds_argument = refl

-- With 1022 words, it finds 0.
misses_argument :
    (make_stack 4096 1022 77 0x4000000 blank >>= λ m.
    physical 4096 (user_stack_begin + 4) m >>= λ a. some (m.word (a / 4096 * 4096) (a / 4 % 1024)))
    ≡ some 0
unfolding make_stack map_stack map_zone map_from map_page ensure_table store clear_page fill_stack
    store_word
misses_argument = refl

map_stack-stack_word_example :
    Ensures
      (λ m.
        (physical 4096 user_stack_begin m ≡ some (stack_word 2 (fix_stack 2 0x4000000) 2))
        × (physical 4096 (user_stack_begin + 4) m ≡ some (stack_word 2 (fix_stack 2 0x4000000) 1)))
      (map_stack 4096 2 0x4000000 blank)
map_stack-stack_word_example =
    map_stack-stack_word 4096 2 0x4000000 blank (blank-WellMapped 4096 (omega arith)) (omega arith)
      refl (omega arith) (λ e. ground arith) (omega arith)

map_stack-beyond_example :
    Ensures
      (λ m. translate 4096 user_stack_end m ≡ some (0x4000000 + 4096 + 7))
      (map_stack 4096 2 0x4000000 blank)
map_stack-beyond_example =
    map_stack-beyond 4096 2 0x4000000 blank (blank-WellMapped 4096 (omega arith)) (omega arith) refl
      (omega arith) (λ e. ground arith) (omega arith)

map_stack-full_example :
    Ensures
      (λ m.
        (a : ℕ) × (physical 4096 (user_stack_begin + 4) m ≡ some a)
        × (stack_word 1022 (fix_stack 1022 0x4000000) 1 ≡ a + page_size))
      (map_stack 4096 1022 0x4000000 blank)
map_stack-full_example =
    map_stack-full 4096 1022 0x4000000 blank (blank-WellMapped 4096 (omega arith)) (omega arith)
      refl (omega arith) refl (omega arith)
