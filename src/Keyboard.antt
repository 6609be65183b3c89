-- ===== src/Keyboard.antt =====
-- The keyboard buffer: kernel/kbd.c. `keyboard_data` puts the characters of a key into a ring of
-- 1000 bytes and echoes them to the console; `cons_read` takes a line out. A read that finds no
-- character waits for the next tick: it is cut there, and goes on with `read_loop`.
pub mod Ring
pub mod Line
pub mod Tests
use domin_os.Base.{
  ℕ, zero, suc, ◌+◌, ◌-◌, Bool, true, false, ltb, Option, none, some, List, [], ◌∷◌, ◌==◌,
  if◌then◌else◌,
}
use domin_os.Console.{Console, poke, cons_write}

pub record Keyboard : Type 0 where
  pub echo : ℕ
  pub index_write : ℕ
  pub index_read : ℕ
  pub nb_write : ℕ
  pub buffer : ℕ → ℕ
  pub console : Console

abbrev pub buffer_size : ℕ
buffer_size = 1000

unfoldable pub cons_echo : ℕ → Keyboard → Keyboard
cons_echo on kb = record kb { echo = on }

-- `cons_write` of the string at `s`, if the echo is on.
unfoldable pub echo_bytes : (ℕ → ℕ) → ℕ → Keyboard → Keyboard
echo_bytes s size kb =
    if kb.echo == 1 then record kb { console = cons_write s size kb.console } else kb

-- "\r\n".
abbrev pub crlf : ℕ → ℕ
crlf i = if i == 0 then 13 else if i == 1 then 10 else 0

-- The write of one character: into the ring, without a test for room.
unfoldable pub push : ℕ → Keyboard → Keyboard
push c kb =
    let next = kb.index_write + 1 in
    record kb {
      buffer = poke kb.index_write c kb.buffer;
      index_write = if next == buffer_size then 0 else next;
    }

-- What is echoed; the rubout of a line that is empty is not.
unfoldable pub echo_char : ℕ → Keyboard → Keyboard
echo_char c kb =
    if c == 13
    then echo_bytes crlf 2 (record kb { nb_write = 0 })
    else if c == 127
    then if kb.nb_write == 0
      then kb
      else echo_bytes (λ i. c) 1 (record kb { nb_write = kb.nb_write - 1 })
    else let kb1 = echo_bytes (λ i. c) 1 kb in record kb1 { nb_write = kb1.nb_write + 1 }

-- `keyboard_data`, on the characters before the null byte.
unfoldable pub keyboard_data : List ℕ → Keyboard → Keyboard
keyboard_data [] kb = kb
keyboard_data (c ∷ cs) kb = keyboard_data cs (echo_char c (push c kb))

-- A read under way: the program's string, the characters in it, and the keyboard.
pub record Read : Type 0 where
  pub string : ℕ → ℕ
  pub char_length : ℕ
  pub keyboard : Keyboard

abbrev pub step_index : ℕ → ℕ
step_index i = if i == buffer_size - 1 then 0 else i + 1

-- The character 127: it stays in the buffer.
unfoldable pub read_rubout : Read → Read
read_rubout r =
    let kb = r.keyboard in
    record {
      string = poke r.char_length 0 r.string;
      char_length = r.char_length - 1;
      keyboard = record kb { index_read = step_index kb.index_read };
    }

-- A character that is taken, and cleared in the buffer.
unfoldable pub take_char : Keyboard → Keyboard
take_char kb = record kb {
  buffer = poke kb.index_read 0 kb.buffer;
  index_read = step_index kb.index_read;
}

unfoldable pub read_plain : Read → Read
read_plain r = record {
  string = poke r.char_length (r.keyboard.buffer r.keyboard.index_read) r.string;
  char_length = r.char_length + 1;
  keyboard = take_char r.keyboard;
}

-- The loop of `cons_read`: true when the read is over, false when it waits.
unfoldable pub read_loop : ℕ → ℕ → Read → Option (Bool × Read)
read_loop zero length r = none
read_loop (suc fuel) length r =
    let c = r.keyboard.buffer r.keyboard.index_read in
    let rubbed = read_loop fuel length (read_rubout r) in
    let taken = read_loop fuel length (read_plain r) in
    if r.char_length == length
    then some (true, r)
    else if c == 0
    then some (false, r)
    else if c == 13
    then some (true, record r { keyboard = take_char r.keyboard })
    else if c == 127
    then rubbed
    else taken

unfoldable pub cons_read : ℕ → ℕ → (ℕ → ℕ) → Keyboard → Option (Bool × Read)
cons_read fuel length string kb =
    read_loop fuel length (record { string = string; char_length = 0; keyboard = kb })
