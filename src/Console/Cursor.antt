-- ===== src/Console/Cursor.antt =====
-- The cursor of kernel/cga.c stays on the screen, and no character writes outside it.
use domin_os.Base.{
  ℕ, zero, suc, ◌+◌, ◌*◌, ◌^◌, ltb, ◌==◌, if◌then◌else◌, ◌≡◌, ◌≤◌, ◌<◌, arith, Bool-cases, refl,
  inl, inr, ◌∙◌,
}
use domin_os.Console.{
  Console, poke, write_char, delete, put_plain, tab, put_switch, scroll, console_putchar, putchars,
  cons_write, put_cursor, strnlen, number_line,
}
use domin_os.Console.Cells.{clear_screen-outside, scroll_screen-outside}

pub record InBounds (con : Console) : Type 0 where
  pub on_line : con.cur_line < 25
  pub on_column : con.cur_column < 80
  pub a_byte : con.global_color < 256

-- What one character may leave behind before the screen scrolls: the line below the last.
record Nearly (con : Console) : Type 0 where
  pub line_near : con.cur_line ≤ 25
  pub column_near : con.cur_column < 80
  pub color_near : con.global_color < 256

-- Only cells of the screen differ.
abbrev pub Confined : Console → Console → Type 0
Confined con after = (j : ℕ) → 2000 ≤ j → after.vram j ≡ con.vram j

put_switch-Nearly : (c : ℕ) (con : Console) → InBounds con → Nearly (put_switch c con)
unfolding put_switch tab delete put_plain
put_switch-Nearly c con b = ground arith

put_switch-Confined : (c : ℕ) (con : Console) → InBounds con → Confined con (put_switch c con)
unfolding put_switch tab delete put_plain write_char poke
put_switch-Confined c con b j h = ground (arith, clear_screen-outside con.vram j h)

scroll-InBounds : (con : Console) → Nearly con → InBounds (scroll con)
unfolding scroll
scroll-InBounds con b = ground arith

scroll-Confined : (con : Console) → Confined con (scroll con)
unfolding scroll
scroll-Confined con j h = elim (Bool-cases (con.cur_line == number_line)) [
  | inl e ↦ rw e (scroll_screen-outside con.vram j h)
  | inr e ↦ rw e refl
]

pub console_putchar-InBounds :
    (c : ℕ) (con : Console) → InBounds con → InBounds (console_putchar c con)
unfolding console_putchar
console_putchar-InBounds c con b = scroll-InBounds (put_switch c con) (put_switch-Nearly c con b)

pub console_putchar-Confined :
    (c : ℕ) (con : Console) → InBounds con → Confined con (console_putchar c con)
unfolding console_putchar
console_putchar-Confined c con b j h =
    scroll-Confined (put_switch c con) j h ∙ put_switch-Confined c con b j h

pub putchars-InBounds :
    (n : ℕ) (s : ℕ → ℕ) (con : Console) → InBounds con → InBounds (putchars n s con)
unfolding putchars
putchars-InBounds zero s con b = b
putchars-InBounds (suc n) s con b =
    putchars-InBounds n (λ i. s (suc i)) (console_putchar (s 0) con)
      (console_putchar-InBounds (s 0) con b)

pub putchars-Confined :
    (n : ℕ) (s : ℕ → ℕ) (con : Console) → InBounds con → Confined con (putchars n s con)
unfolding putchars
putchars-Confined zero s con b j h = refl
putchars-Confined (suc n) s con b j h =
    putchars-Confined n (λ i. s (suc i)) (console_putchar (s 0) con)
      (console_putchar-InBounds (s 0) con b) j h
    ∙ console_putchar-Confined (s 0) con b j h

-- The card shows the cursor where the variables have it.
abbrev pub Shown : Console → Type 0
Shown con = con.cursor ≡ con.cur_line * 80 + con.cur_column

put_cursor-Shown :
    (con : Console) → InBounds con → Shown (put_cursor con.cur_line con.cur_column con)
unfolding put_cursor
put_cursor-Shown con b = ground arith

pub record IsWritten (con after : Console) : Type 0 where
  pub bounds : InBounds after
  pub shown : Shown after
  pub confined : Confined con after

put_cursor-IsWritten :
    (con con1 : Console)
    → InBounds con1
    → Confined con con1
    → IsWritten con (put_cursor con1.cur_line con1.cur_column con1)
unfolding put_cursor
put_cursor-IsWritten con con1 b c = record {
  bounds = record { on_line = b.on_line; on_column = b.on_column; a_byte = b.a_byte };
  shown = ground arith;
  confined = c;
}

-- From a cursor on the screen that the card shows, `cons_write` of any string with any size
-- leaves the cursor on the screen and shown by the card, and changes no memory but the 2000
-- cells of the screen.
pub cons_write-IsWritten :
    (s : ℕ → ℕ) (size : ℕ) (con : Console)
    → InBounds con
    → Shown con
    → IsWritten con (cons_write s size con)
unfolding cons_write
cons_write-IsWritten s size con b sh =
    let n = if ltb size (2 ^ 31) then size else 0 in
    elim (Bool-cases (strnlen s size == size)) [
      | inl e ↦ rw e (
          put_cursor-IsWritten con (putchars n s con) (putchars-InBounds n s con b)
            (putchars-Confined n s con b))
      | inr e ↦ rw e (record { bounds = b; shown = sh; confined = λ j h. refl })
    ]
