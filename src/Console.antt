-- ===== src/Console.antt =====
-- The text console: kernel/cga.c on the video memory, the two static cursor variables, the colour
-- and the cursor register of the card. A cell is a 16-bit word of video memory, named by its offset
-- from 0xB8000 in words; the program can write past the screen, so there is no bound on the offset.
-- A string is what is in memory from its address on.
pub mod Cells
pub mod Cursor
pub mod Bytes
pub mod Tests
use domin_os.Base.{
  ℕ, zero, suc, ◌+◌, ◌-◌, ◌*◌, ◌/◌, ◌%◌, ◌^◌, Bool, true, false, ltb, ◌==◌, if◌then◌else◌, ◌≡◌, ◌≢◌,
  ◌≤◌, ◌<◌, arith,
}

pub record Console : Type 0 where
  pub vram : ℕ → ℕ
  pub cur_line : ℕ
  pub cur_column : ℕ
  pub global_color : ℕ
  pub cursor : ℕ

abbrev pub number_column : ℕ
number_column = 80

abbrev pub number_line : ℕ
number_line = 25

abbrev pub white_on_black : ℕ
white_on_black = 0x0F00

abbrev pub offset : ℕ → ℕ → ℕ
offset line column = line * number_column + column

unfoldable pub poke : ℕ → ℕ → (ℕ → ℕ) → ℕ → ℕ
poke i v mem = λ j. if j == i then v else mem j

-- `opts << 8 | c`, stored in 16 bits: `c` is a signed char, so from 128 on it is negative as an
-- `int`, and its upper byte is all ones.
abbrev pub cell : ℕ → ℕ → ℕ
cell color c = if ltb c 128 then color * 256 + c else 0xFF00 + c

unfoldable pub write_char : ℕ → ℕ → ℕ → ℕ → (ℕ → ℕ) → ℕ → ℕ
write_char line column c color mem = poke (offset line column) (cell color c) mem

-- The two bytes that `put_cursor` sends to the card.
unfoldable pub put_cursor : ℕ → ℕ → Console → Console
put_cursor line column con = record con {
  cur_line = line;
  cur_column = column;
  cursor = (column + line * 80) % 2 ^ 16;
}

-- `while (count--) *buf++ = WHITE_ON_BLACK`.
unfoldable pub blank : ℕ → ℕ → (ℕ → ℕ) → ℕ → ℕ
blank zero buf mem = mem
blank (suc count) buf mem = blank count (suc buf) (poke buf white_on_black mem)

-- `memmove` to a lower address: cell by cell, upwards.
unfoldable pub move_down : ℕ → ℕ → ℕ → (ℕ → ℕ) → ℕ → ℕ
move_down zero dst src mem = mem
move_down (suc n) dst src mem = move_down n (suc dst) (suc src) (poke dst (mem src) mem)

unfoldable pub clear_screen : (ℕ → ℕ) → ℕ → ℕ
clear_screen mem = blank (number_column * number_line) 0 mem

unfoldable pub scroll_screen : (ℕ → ℕ) → ℕ → ℕ
scroll_screen mem =
    blank number_column (offset (number_line - 1) 0)
      (move_down ((number_line - 1) * number_column) 0 (offset 1 0) mem)

-- `--` and `++` on a byte.
abbrev pub pred8 : ℕ → ℕ
pred8 n = (n + 255) % 256

abbrev pub suc8 : ℕ → ℕ
suc8 n = (n + 1) % 256

unfoldable pub tab : Console → Console
tab con =
    let cur_tab = con.cur_column / 8 * 8 in
    record con { cur_column = if cur_tab == 72 then 79 else cur_tab + 7 }

-- The character 127.
unfoldable pub delete : Console → Console
delete con =
    let con1 =
      if con.cur_column == 0
      then if con.cur_line == 0
        then con
        else record con { cur_line = pred8 con.cur_line; cur_column = 79 }
      else record con { cur_column = pred8 con.cur_column } in
    record con1 { vram = poke (offset con1.cur_line con1.cur_column) white_on_black con1.vram }

unfoldable pub put_plain : ℕ → Console → Console
put_plain c con =
    let con1 = record con {
      vram = write_char con.cur_line con.cur_column c con.global_color con.vram;
    } in
    if con.cur_column == number_column - 1
    then record con1 { cur_line = suc8 con.cur_line; cur_column = 0 }
    else record con1 { cur_column = suc8 con.cur_column }

-- The switch of `console_putchar`.
unfoldable pub put_switch : ℕ → Console → Console
put_switch c con =
    if c == 8
    then if con.cur_column == 0 then con else record con { cur_column = pred8 con.cur_column }
    else if c == 9
    then tab con
    else if c == 10
    then record con { cur_line = suc8 con.cur_line; cur_column = 0 }
    else if c == 12
    then record con { vram = clear_screen con.vram; cur_line = 0; cur_column = 0 }
    else if c == 13
    then record con { cur_column = 0 }
    else if c == 127
    then delete con
    else put_plain c con

unfoldable pub scroll : Console → Console
scroll con =
    if con.cur_line == number_line
    then record con { vram = scroll_screen con.vram; cur_line = pred8 con.cur_line }
    else con

unfoldable pub console_putchar : ℕ → Console → Console
console_putchar c con = scroll (put_switch c con)

-- The length of the string at `s`, at most `maxlen`.
unfoldable pub strnlen : (ℕ → ℕ) → ℕ → ℕ
strnlen s zero = 0
strnlen s (suc maxlen) =
    let rest = strnlen (λ i. s (suc i)) maxlen in if s 0 == 0 then 0 else suc rest

unfoldable pub putchars : ℕ → (ℕ → ℕ) → Console → Console
putchars zero s con = con
putchars (suc n) s con = putchars n (λ i. s (suc i)) (console_putchar (s 0) con)

-- A `long` is a bit pattern: the loop does not run on a negative size.
unfoldable pub cons_write : (ℕ → ℕ) → ℕ → Console → Console
cons_write s size con =
    if strnlen s size == size
    then (let con1 = putchars (if ltb size (2 ^ 31) then size else 0) s con in
        put_cursor con1.cur_line con1.cur_column con1)
    else con

unfoldable pub console_putbytes : (ℕ → ℕ) → ℕ → Console → Console
console_putbytes bytes len con = cons_write bytes len con

unfoldable pub console_putbytes_topright : (ℕ → ℕ) → ℕ → Console → Console
console_putbytes_topright bytes len con =
    let con1 =
      console_putbytes bytes len (put_cursor 0 ((number_column + 2 ^ 32 - len) % 256) con) in
    put_cursor con1.cur_line con1.cur_column con1

unfoldable pub change_color : ℕ → Console → Console
change_color color con = record con { global_color = color }
