-- ===== src/Keyboard/Line.antt =====
-- A line that is typed is what `cons_read` returns; and what a rubout leaves behind in the ring.
use domin_os.Base.{
  ℕ, zero, suc, ◌+◌, ◌%◌, true, false, some, List, [], ◌∷◌, ◌++◌, ◌==◌, ◌≡◌, refl, ap, ◌∙◌, ◌≢◌,
  ◌≤◌, ◌<◌, arith, length, length-append, get_elem?, Bool-cases, inl, inr, All,
}
use domin_os.Console.{poke}
use domin_os.Keyboard.{
  Keyboard, Read, keyboard_data, step_index, take_char, read_plain, read_rubout, read_loop,
  cons_read,
}
use domin_os.Keyboard.Ring.{Holds, Behind, Behind-step, Behind-ne, Holds-poke, keyboard_data-Typed}

-- A character that a read takes as it is.
pub record IsInput (c : ℕ) : Type 0 where
  pub not_null : c ≢ 0
  pub not_return : c ≢ 13
  pub not_rubout : c ≢ 127

-- What a read that was over after `xs` and the return leaves.
pub record Got (xs : List ℕ) (r r1 : Read) : Type 0 where
  pub count : r1.char_length ≡ r.char_length + length xs
  pub chars : (i : ℕ) → i < length xs → get_elem? xs i ≡ some (r1.string (r.char_length + i))
  pub before : (j : ℕ) → j < r.char_length → r1.string j ≡ r.string j
  pub read_after : r1.keyboard.index_read ≡ (r.keyboard.index_read + (length xs + 1)) % 1000
  pub cleared :
      (d q : ℕ) → Behind r.keyboard.index_read d q → d ≤ length xs → r1.keyboard.buffer q ≡ 0
  pub kept :
      (d q : ℕ)
      → Behind r.keyboard.index_read d q
      → length xs < d
      → d < 1000
      → r1.keyboard.buffer q ≡ r.keyboard.buffer q
  pub write_same : r1.keyboard.index_write ≡ r.keyboard.index_write

ends : Read → Read
ends r = record r { keyboard = take_char r.keyboard }

ends-Got : (r : Read) → r.keyboard.index_read < 1000 → Got [] r (ends r)
unfolding ends take_char poke
ends-Got r b = record {
  count = omega arith;
  chars = λ i h. ground arith;
  before = λ j h. refl;
  read_after = elim (Bool-cases (r.keyboard.index_read == 999)) [
    | inl e ↦ rw e (ground arith)
    | inr e ↦ rw e (ground arith)
  ];
  cleared = λ d q h m. ground arith;
  kept = λ d q h l g. ground arith;
  write_same = refl;
}

take-Got :
    (x : ℕ) (xs : List ℕ) (r r1 : Read)
    → r.keyboard.index_read < 1000
    → length xs < 999
    → r.keyboard.buffer r.keyboard.index_read ≡ x
    → Got xs (read_plain r) r1
    → Got (x ∷ xs) r r1
unfolding read_plain take_char poke
take-Got x xs r r1 b l hx g =
    let p = r.keyboard.index_read in
    record {
      count = omega (arith, g.count);
      chars = λ i h.
          elim i
              as (λ i.
                i < suc (length xs) → get_elem? (x ∷ xs) i ≡ some (r1.string (r.char_length + i))) [
                  | zero ↦ λ h. ground (arith, g.before r.char_length (omega arith), hx)
                  | suc i ↦
                      λ h. g.chars i (omega arith) ∙ ap (λ j. some (r1.string j)) (omega arith)
                ]
            h;
      before = λ j h. g.before j (omega arith) ∙ ground arith;
      read_after = g.read_after ∙ elim (Bool-cases (p == 999)) [
        | inl e ↦ rw e (ground arith)
        | inr e ↦ rw e (ap (λ x. x % 1000) (omega arith))
      ];
      cleared = λ d q h m.
          elim d as (λ d. Behind p d q → d ≤ suc (length xs) → r1.keyboard.buffer q ≡ 0) [
            | zero ↦ λ h m.
                let same : q ≡ p = omega arith in
                g.kept 999 q (rw same (Behind-step p 999 p (b, omega arith))) (omega arith)
                  (omega arith)
                ∙ ground arith
            | suc d ↦ λ h m. g.cleared d q (Behind-step p d q h) (omega arith)
          ]
            h m;
      kept = λ d q h m n.
          elim d
              as (λ d.
                Behind p d q
                → suc (length xs) < d
                → d < 1000
                → r1.keyboard.buffer q ≡ r.keyboard.buffer q) [
                  | zero ↦ λ h m n. ground arith
                  | suc d ↦ λ h m n.
                      g.kept d q (Behind-step p d q h) (omega arith) (omega arith)
                      ∙ ground (arith, Behind-ne p d q h (omega arith))
                ]
            h m n;
      write_same = g.write_same;
    }

pub read_loop-Got :
    (xs : List ℕ) (fuel n : ℕ) (r : Read)
    → All IsInput xs
    → length xs < fuel
    → length xs < 1000
    → r.char_length + length xs < n
    → r.keyboard.index_read < 1000
    → Holds (xs ++ (13 ∷ [])) r.keyboard.index_read r.keyboard.buffer
    → (r1 : Read) × (read_loop fuel n r ≡ some (true, r1)) × Got xs r r1
unfolding read_loop
read_loop-Got xs zero n r a f l m b h = ground arith
read_loop-Got [] (suc fuel) n r a f l m b h =
    let more : (r.char_length == n) ≡ false = ground arith in
    (ends r, unfold ends in rw (more, h.0) refl, ends-Got r b)
read_loop-Got (x ∷ xs) (suc fuel) n r a f l m b h =
    let p = r.keyboard.index_read in
    let more : (r.char_length == n) ≡ false = ground arith in
    let c0 : (x == 0) ≡ false = ground (arith, a.0.not_null) in
    let c1 : (x == 13) ≡ false = ground (arith, a.0.not_return) in
    let c2 : (x == 127) ≡ false = ground (arith, a.0.not_rubout) in
    let len = length-append xs (13 ∷ []) in
    let rest =
      Holds-poke (xs ++ (13 ∷ [])) (step_index p) 999 p 0 r.keyboard.buffer
        (Behind-step p 999 p (b, omega arith)) (omega (arith, len)) (omega arith) h.1 in
    let (r1, e, g) =
      read_loop-Got xs fuel n (read_plain r) a.1 (omega arith) (omega arith)
        (unfold read_plain in omega arith) (unfold read_plain take_char in ground arith)
        (unfold read_plain take_char in rest) in
    (r1, rw (more, h.0, c0, c1, c2) e, take-Got x xs r r1 b (omega arith) h.0 g)

-- A read that begins.
abbrev opened : (ℕ → ℕ) → Keyboard → Read
opened string kb = record { string = string; char_length = 0; keyboard = kb }

-- A line of fewer than 1000 characters, none of them null, a return or 127, that `keyboard_data`
-- gets together with a return while the reader has read all and stands in the ring, is what
-- `cons_read` with a longer string and enough fuel returns without waiting: its length, its
-- characters in their order, and a reader that has read all again.
pub cons_read-keyboard_data :
    (xs : List ℕ) (fuel n : ℕ) (string : ℕ → ℕ) (kb : Keyboard)
    → All IsInput xs
    → length xs < fuel
    → length xs < 1000
    → length xs < n
    → kb.index_write < 1000
    → kb.index_read ≡ kb.index_write
    → (r : Read) × (cons_read fuel n string (keyboard_data (xs ++ (13 ∷ [])) kb) ≡ some (true, r))
      × (r.char_length ≡ length xs)
      × ((i : ℕ) → i < length xs → get_elem? xs i ≡ some (r.string i))
      × (r.keyboard.index_read ≡ r.keyboard.index_write)
unfolding cons_read
cons_read-keyboard_data xs fuel n string kb a f l m b e =
    let len = length-append xs (13 ∷ []) in
    let t = keyboard_data-Typed (xs ++ (13 ∷ [])) kb b (omega (arith, len)) in
    let at_start = t.read_same ∙ e in
    let (r, q, g) =
      read_loop-Got xs fuel n (opened string (keyboard_data (xs ++ (13 ∷ [])) kb)) a f l
        (omega arith) (rw at_start b) (rw at_start t.held) in
    (
      r,
      q,
      omega (arith, g.count),
      λ i h. g.chars i h ∙ ap (λ j. some (r.string j)) (omega arith),
      g.read_after ∙ (rw (at_start, g.write_same, t.write_after, len) refl),
    )

read_loop-rubout :
    (fuel n : ℕ) (r : Read)
    → r.char_length < n
    → r.keyboard.buffer r.keyboard.index_read ≡ 127
    → read_loop (suc fuel) n r ≡ read_loop fuel n (read_rubout r)
unfolding read_loop
read_loop-rubout fuel n r l e =
    let more : (r.char_length == n) ≡ false = ground arith in rw (more, e) refl

read_loop-waits :
    (fuel n : ℕ) (r : Read)
    → r.char_length < n
    → r.keyboard.buffer r.keyboard.index_read ≡ 0
    → read_loop (suc fuel) n r ≡ some (false, r)
unfolding read_loop
read_loop-waits fuel n r l e =
    let more : (r.char_length == n) ≡ false = ground arith in rw (more, e) refl

-- A rubout that is typed to a reader that has read all, with the next place of the ring empty,
-- is read with two steps of fuel or more, and the reader waits with no character, but the rubout
-- is still in the ring.
pub cons_read-rubout :
    (fuel n : ℕ) (string : ℕ → ℕ) (kb : Keyboard)
    → 1 < fuel
    → 0 < n
    → kb.index_write < 1000
    → kb.index_read ≡ kb.index_write
    → kb.buffer (step_index kb.index_write) ≡ 0
    → (r : Read) × (cons_read fuel n string (keyboard_data (127 ∷ []) kb) ≡ some (false, r))
      × (r.char_length ≡ 0)
      × (r.keyboard.index_read ≡ r.keyboard.index_write)
      × (r.keyboard.buffer kb.index_write ≡ 127)
unfolding cons_read read_rubout
cons_read-rubout zero n string kb f m b e z = ground arith
cons_read-rubout (suc zero) n string kb f m b e z = ground arith
cons_read-rubout (suc (suc fuel)) n string kb f m b e z =
    let p = kb.index_write in
    let r = opened string (keyboard_data (127 ∷ []) kb) in
    let t = keyboard_data-Typed (127 ∷ []) kb b (omega arith) in
    let at_start = t.read_same ∙ e in
    let full : r.keyboard.buffer r.keyboard.index_read ≡ 127 = rw at_start t.held.0 in
    let empty : r.keyboard.buffer (step_index r.keyboard.index_read) ≡ 0 =
      rw at_start (t.kept 1 (step_index p) (b, ground arith) (omega arith) (omega arith) ∙ z) in
    (
      read_rubout r,
      read_loop-rubout (suc fuel) n r (omega arith) full
          ∙ read_loop-waits fuel n (read_rubout r) (omega arith) empty,
      refl,
      rw (at_start, t.write_after) (ground arith),
      t.held.0,
    )
