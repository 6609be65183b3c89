-- ===== src/Keyboard/Tests.antt =====
-- Runs of the keyboard buffer, and the theorems at an empty one.
use domin_os.Base.{ℕ, true, some, List, [], ◌∷◌, ◌++◌, ◌≡◌, refl, ◌<◌, arith, get_elem?, All, ◌>>=◌}
use domin_os.Console.{poke}
use domin_os.Console.Tests.{at}
use domin_os.Keyboard.{
  Keyboard, Read, keyboard_data, cons_read, read_loop, push, echo_char, echo_bytes, read_plain,
  read_rubout, take_char, cons_echo,
}
use domin_os.Keyboard.Line.{IsInput, cons_read-keyboard_data}

-- The ring is empty, and both ends stand at its last place.
abbrev quiet : Keyboard
quiet = record {
  echo = 1;
  index_write = 999;
  index_read = 999;
  nb_write = 0;
  buffer = λ i. 0;
  console = at 3 5;
}

abbrev hi : List ℕ
hi = 104 ∷ 105 ∷ []

hi-IsInput : All IsInput hi
hi-IsInput = (
  record {
    not_null = λ e. ground arith;
    not_return = λ e. ground arith;
    not_rubout = λ e. ground arith;
  },
  (
    record {
      not_null = λ e. ground arith;
      not_return = λ e. ground arith;
      not_rubout = λ e. ground arith;
    },
    tt,
  ),
)

-- Without an echo; a rubout takes one character back.
rubs_out :
    (cons_read 9 9 (λ i. 0) (keyboard_data (104 ∷ 105 ∷ 127 ∷ 13 ∷ []) (cons_echo 0 quiet)) >>= λ r.
    some r.1.char_length)
    ≡ some 1
unfolding cons_read keyboard_data cons_echo read_loop push echo_char echo_bytes read_plain
    read_rubout take_char poke
rubs_out = refl

cons_read-keyboard_data_example :
    (r : Read) × (cons_read 5 9 (λ i. 0) (keyboard_data (hi ++ (13 ∷ [])) quiet) ≡ some (true, r))
    × (r.char_length ≡ 2)
    × ((i : ℕ) → i < 2 → get_elem? hi i ≡ some (r.string i))
    × (r.keyboard.index_read ≡ r.keyboard.index_write)
cons_read-keyboard_data_example =
    cons_read-keyboard_data hi 5 9 (λ i. 0) quiet hi-IsInput (omega arith) (omega arith)
      (omega arith) (omega arith) refl
