-- ===== src/Console/Tests.antt =====
-- Runs of the console, and the theorems at one.
use domin_os.Base.{ℕ, ◌+◌, ◌*◌, ◌==◌, if◌then◌else◌, ◌≡◌, arith, refl}
use domin_os.Console.{
  Console, poke, write_char, tab, put_plain, put_switch, scroll, console_putchar, putchars,
  cons_write, put_cursor, strnlen, change_color,
}
use domin_os.Console.Cursor.{InBounds, IsWritten, cons_write-IsWritten}

-- "Hi", and then null bytes.
abbrev hi : ℕ → ℕ
hi i = if i == 0 then 72 else if i == 1 then 105 else 0

-- A screen on which every cell holds its own number, in yellow.
abbrev pub at : ℕ → ℕ → Console
at line column = record {
  vram = λ j. j;
  cur_line = line;
  cur_column = column;
  global_color = 14;
  cursor = line * 80 + column;
}

at-InBounds : InBounds (at 3 5)
at-InBounds = record { on_line = omega arith; on_column = omega arith; a_byte = omega arith }

writes : (cons_write hi 2 (at 3 5)).vram 246 ≡ 14 * 256 + 105
unfolding cons_write putchars console_putchar put_switch put_plain scroll write_char poke put_cursor
    strnlen
writes = refl

tabs : (console_putchar 9 (at 3 5)).cur_column ≡ 7
unfolding console_putchar put_switch tab scroll
tabs = refl

tabs_last : (console_putchar 9 (at 3 75)).cur_column ≡ 79
unfolding console_putchar put_switch tab scroll
tabs_last = refl

colours : (cons_write hi 1 (change_color 4 (at 3 5))).vram 245 ≡ 4 * 256 + 72
unfolding cons_write putchars console_putchar put_switch put_plain scroll write_char poke put_cursor
    strnlen change_color
colours = refl

cons_write-IsWritten_example : IsWritten (at 3 5) (cons_write hi 2 (at 3 5))
cons_write-IsWritten_example = cons_write-IsWritten hi 2 (at 3 5) at-InBounds refl
