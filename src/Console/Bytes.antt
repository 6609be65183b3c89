-- ===== src/Console/Bytes.antt =====
-- What kernel/cga.c shows: plain text, deletion, the scroll, and strings that are refused.
use domin_os.Base.{
  ℕ, zero, suc, ◌+◌, ◌-◌, ◌%◌, ◌^◌, true, ltb, ◌==◌, ◌≡◌, ◌≢◌, ◌≤◌, ◌<◌, arith, refl,
}
use domin_os.Console.{
  Console, poke, write_char, cell, white_on_black, offset, delete, put_plain, put_switch, scroll,
  console_putchar, putchars, cons_write, put_cursor, console_putbytes, console_putbytes_topright,
  strnlen, number_column,
}
use domin_os.Console.Cells.{scroll_screen-up, scroll_screen-last}
use domin_os.Console.Cursor.{InBounds}

-- A character that `console_putchar` writes to the screen.
pub record IsPlain (c : ℕ) : Type 0 where
  pub printed : 32 ≤ c
  pub not_delete : c ≢ 127

put_switch-plain : (c : ℕ) (con : Console) → IsPlain c → put_switch c con ≡ put_plain c con
unfolding put_switch
put_switch-plain c con p = ground arith

-- The cursor goes on by one, to the next line from the last column.
pub console_putchar-plain :
    (c : ℕ) (con : Console)
    → IsPlain c
    → InBounds con
    → con.cur_column < 79
    → console_putchar c con ≡ record con {
      vram = write_char con.cur_line con.cur_column c con.global_color con.vram;
      cur_column = con.cur_column + 1;
    }
unfolding console_putchar put_plain scroll
console_putchar-plain c con p b h = rw (put_switch-plain c con p) (ground arith)

-- `n` characters of `s` stand from the cursor on, and the cursor after them.
pub record IsTyped (s : ℕ → ℕ) (n : ℕ) (con after : Console) : Type 0 where
  pub line_same : after.cur_line ≡ con.cur_line
  pub column_after : after.cur_column ≡ con.cur_column + n
  pub color_same : after.global_color ≡ con.global_color
  pub typed :
      (i : ℕ)
      → i < n
      → after.vram (offset con.cur_line con.cur_column + i) ≡ cell con.global_color (s i)
  pub before : (j : ℕ) → j < offset con.cur_line con.cur_column → after.vram j ≡ con.vram j
  pub behind : (j : ℕ) → offset con.cur_line con.cur_column + n ≤ j → after.vram j ≡ con.vram j

IsTyped-one :
    (s : ℕ → ℕ) (n : ℕ) (con after : Console)
    → IsTyped
        (λ i. s (suc i))
        n
        (record con {
          vram = write_char con.cur_line con.cur_column (s 0) con.global_color con.vram;
          cur_column = con.cur_column + 1;
        })
        after
    → IsTyped s (suc n) con after
unfolding write_char poke
IsTyped-one s n con after t = record {
  line_same = t.line_same;
  column_after = omega (arith, t.column_after);
  color_same = t.color_same;
  typed = λ i h.
      elim i
          as (λ i.
            i < suc n
            → after.vram (offset con.cur_line con.cur_column + i) ≡ cell con.global_color (s i)) [
              | zero ↦
                  λ h. ground (arith, t.before (offset con.cur_line con.cur_column) (omega arith))
              | suc i ↦ λ h. ground (arith, t.typed i (omega arith))
            ]
        h;
  before = λ j h. ground (arith, t.before j (omega arith));
  behind = λ j h. ground (arith, t.behind j (omega arith));
}

pub putchars-IsTyped :
    (n : ℕ) (s : ℕ → ℕ) (con : Console)
    → InBounds con
    → con.cur_column + n < 80
    → ((i : ℕ) → i < n → IsPlain (s i))
    → IsTyped s n con (putchars n s con)
unfolding putchars
putchars-IsTyped zero s con b h p = record {
  line_same = refl;
  column_after = omega arith;
  color_same = refl;
  typed = λ i g. ground arith;
  before = λ j g. refl;
  behind = λ j g. refl;
}
putchars-IsTyped (suc n) s con b h p =
    rw (console_putchar-plain (s 0) con (p 0 (omega arith)) b (omega arith)) (
      IsTyped-one s n con _ (
        putchars-IsTyped n (λ i. s (suc i)) _
          (record { on_line = b.on_line; on_column = omega arith; a_byte = b.a_byte }) (omega arith)
          (λ i g. p (suc i) (omega arith))))

pub strnlen-full : (n : ℕ) (s : ℕ → ℕ) → ((i : ℕ) → i < n → s i ≢ 0) → strnlen s n ≡ n
unfolding strnlen
strnlen-full zero s p = refl
strnlen-full (suc n) s p =
    ground
      (arith, p 0 (omega arith), strnlen-full n (λ i. s (suc i)) (λ i g. p (suc i) (omega arith)))

pub strnlen-short : (n : ℕ) (s : ℕ → ℕ) (i : ℕ) → i < n → s i ≡ 0 → strnlen s n < n
unfolding strnlen
strnlen-short zero s i h e = ground arith
strnlen-short (suc n) s zero h e = ground arith
strnlen-short (suc n) s (suc i) h e =
    ground (arith, strnlen-short n (λ i. s (suc i)) i (omega arith) e)

-- `cons_write` of a string with a null byte among its first `size` bytes changes nothing.
pub cons_write-refused :
    (s : ℕ → ℕ) (size : ℕ) (con : Console) (i : ℕ)
    → i < size
    → s i ≡ 0
    → cons_write s size con ≡ con
unfolding cons_write
cons_write-refused s size con i h e = ground (arith, strnlen-short size s i h e)

-- A plain character and then a deletion, anywhere on the screen but in its last cell, put the
-- cursor back and leave the cell blank and every other cell as it was.
pub delete-console_putchar :
    (c : ℕ) (con : Console)
    → IsPlain c
    → InBounds con
    → offset con.cur_line con.cur_column ≢ 1999
    → console_putchar 127 (console_putchar c con) ≡ record con {
      vram =
          poke
            (offset con.cur_line con.cur_column)
            white_on_black
            (write_char con.cur_line con.cur_column c con.global_color con.vram);
    }
unfolding console_putchar put_plain scroll delete put_switch
delete-console_putchar c con p b h = ground arith

-- A new line on the last line: every line moves up by one, the last is blank, and the cursor stands
-- at its start.
pub record IsScrolled (con after : Console) : Type 0 where
  pub up : (j : ℕ) → j < 1920 → after.vram j ≡ con.vram (j + 80)
  pub last : (j : ℕ) → 1920 ≤ j → j < 2000 → after.vram j ≡ white_on_black
  pub last_line : after.cur_line ≡ 24
  pub first_column : after.cur_column ≡ 0

-- A new line on the last line moves every line up by one and blanks the last, and leaves the
-- cursor at the start of the last line.
pub console_putchar-IsScrolled :
    (con : Console) → con.cur_line ≡ 24 → IsScrolled con (console_putchar 10 con)
unfolding console_putchar put_switch scroll
console_putchar-IsScrolled con e = rw e (record {
  up = λ j h. scroll_screen-up con.vram j h;
  last = λ j g h. scroll_screen-last con.vram j g h;
  last_line = refl;
  first_column = refl;
})

putchars-last :
    (n : ℕ) (s : ℕ → ℕ) (con : Console)
    → putchars (suc n) s con ≡ console_putchar (s n) (putchars n s con)
unfolding putchars
putchars-last zero s con = refl
putchars-last (suc n) s con = putchars-last n (λ i. s (suc i)) (console_putchar (s 0) con)

-- On the last column of the first line the next character goes to the second line.
console_putchar-wraps :
    (c : ℕ) (con : Console)
    → IsPlain c
    → con.cur_line ≡ 0
    → con.cur_column ≡ 79
    → ((console_putchar c con).cur_line ≡ 1) × ((console_putchar c con).cur_column ≡ 0)
unfolding console_putchar put_plain scroll
console_putchar-wraps c con p l e = rw (put_switch-plain c con p, l, e) (refl, refl)

-- `console_putbytes_topright` of 1 to 80 plain characters leaves the cursor at the start of the
-- second line, wherever it was on the screen.
pub console_putbytes_topright-moved :
    (s : ℕ → ℕ) (n : ℕ) (con : Console)
    → InBounds con
    → n < 80
    → ((i : ℕ) → i ≤ n → IsPlain (s i))
    → ((console_putbytes_topright s (suc n) con).cur_line ≡ 1)
      × ((console_putbytes_topright s (suc n) con).cur_column ≡ 0)
unfolding console_putbytes_topright console_putbytes cons_write put_cursor
console_putbytes_topright-moved s n con b h p =
    let full = strnlen-full (suc n) s (λ i g. ground (arith, (p i (omega arith)).printed)) in
    let same : (suc n == suc n) ≡ true = ground arith in
    let small : ltb (suc n) (2 ^ 31) ≡ true = ground arith in
    let con1 = put_cursor 0 ((number_column + 2 ^ 32 - suc n) % 256) con in
    let place : con1.cur_column ≡ 79 - n = omega arith in
    let t =
      putchars-IsTyped n s con1
        (record { on_line = omega arith; on_column = omega arith; a_byte = b.a_byte }) (omega arith)
        (λ i g. p i (omega arith)) in
    rw (full, same, small, putchars-last n s con1)
      (console_putchar-wraps (s n) (putchars n s con1) (p n (omega arith)) t.line_same
        (omega (arith, t.column_after)))
