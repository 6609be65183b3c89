-- ===== src/Keyboard/Ring.antt =====
-- What the ring of kernel/kbd.c holds after characters are written to it.
use domin_os.Base.{
  ℕ, zero, suc, ◌+◌, ◌%◌, List, [], ◌∷◌, ◌==◌, ◌≡◌, refl, ap, sym, ◌∙◌, ◌≢◌, ◌≤◌, ◌<◌, arith,
  length, Bool-cases, inl, inr,
}
use domin_os.Console.{poke}
use domin_os.Keyboard.{Keyboard, push, echo_bytes, echo_char, keyboard_data, step_index}

-- The characters stand in the ring from `p` on.
abbrev pub Holds : List ℕ → ℕ → (ℕ → ℕ) → Type 0
Holds [] p buf = Unit
Holds (x ∷ xs) p buf = (buf p ≡ x) × Holds xs (step_index p) buf

-- `q` lies `d` places behind `p` in the ring.
abbrev pub Behind : ℕ → ℕ → ℕ → Type 0
Behind p d q = (p < 1000) × (q ≡ (p + d) % 1000)

pub Behind-step : (p d q : ℕ) → Behind p (suc d) q → Behind (step_index p) d q
Behind-step p d q h = elim (Bool-cases (p == 999)) [
  | inl e ↦ rw e (omega arith, ground arith)
  | inr e ↦ rw e (ground arith, h.1 ∙ ap (λ x. x % 1000) (omega arith))
]

pub Behind-ne : (p d q : ℕ) → Behind p (suc d) q → d < 999 → q ≢ p
Behind-ne p d q h l e = omega arith

-- A write behind the characters leaves them.
pub Holds-poke :
    (xs : List ℕ) (p d q v : ℕ) (buf : ℕ → ℕ)
    → Behind p d q
    → length xs ≤ d
    → d < 1000
    → Holds xs p buf
    → Holds xs p (poke q v buf)
unfolding poke
Holds-poke [] p d q v buf b l m h = tt
Holds-poke (x ∷ xs) p zero q v buf b l m h = ground arith
Holds-poke (x ∷ xs) p (suc d) q v buf b l m h = (
  ground (arith, Behind-ne p d q b (omega arith), h.0),
  Holds-poke xs (step_index p) d q v buf (Behind-step p d q b) (omega arith) (omega arith) h.1,
)

-- The echo does not touch the ring.
pub record SameRing (kb kb1 : Keyboard) : Type 0 where
  pub same_buffer : kb1.buffer ≡ kb.buffer
  pub same_write : kb1.index_write ≡ kb.index_write
  pub same_read : kb1.index_read ≡ kb.index_read

pub echo_char-SameRing : (c : ℕ) (kb : Keyboard) → SameRing kb (echo_char c kb)
unfolding echo_char echo_bytes
echo_char-SameRing c kb = ground arith

-- What `keyboard_data` leaves: the characters from the old end on, and the rest as it was.
pub record Typed (cs : List ℕ) (kb kb1 : Keyboard) : Type 0 where
  pub held : Holds cs kb.index_write kb1.buffer
  pub kept :
      (d q : ℕ) → Behind kb.index_write d q → length cs ≤ d → d < 1000 → kb1.buffer q ≡ kb.buffer q
  pub write_after : kb1.index_write ≡ (kb.index_write + length cs) % 1000
  pub read_same : kb1.index_read ≡ kb.index_read

push-step : (c : ℕ) (kb : Keyboard) → (push c kb).index_write ≡ step_index kb.index_write
unfolding push
push-step c kb = ground arith

keyboard_data-cons :
    (c : ℕ) (cs : List ℕ) (kb kb1 kb2 : Keyboard)
    → kb.index_write < 1000
    → length cs < 1000
    → kb1.buffer ≡ poke kb.index_write c kb.buffer
    → kb1.index_write ≡ step_index kb.index_write
    → kb1.index_read ≡ kb.index_read
    → Typed cs kb1 kb2
    → Typed (c ∷ cs) kb kb2
unfolding poke
keyboard_data-cons c cs kb kb1 kb2 b l eb ew er t =
    let p = kb.index_write in
    record {
      held = (
        t.kept 999 p (rw ew (Behind-step p 999 p (b, omega arith))) (omega arith) (omega arith)
            ∙ rw eb (ground arith),
        rw (sym ew) t.held,
      );
      kept = λ d q h m g.
          elim d
              as (λ d. Behind p d q → length (c ∷ cs) ≤ d → d < 1000 → kb2.buffer q ≡ kb.buffer q) [
                | zero ↦ λ h m g. ground arith
                | suc d ↦ λ h m g.
                    t.kept d q (rw ew (Behind-step p d q h)) (omega arith) (omega arith)
                    ∙ rw eb (ground (arith, Behind-ne p d q h (omega arith)))
              ]
            h m g;
      write_after =
          t.write_after
          ∙ rw ew (elim (Bool-cases (p == 999)) [
            | inl e ↦ rw e (ground arith)
            | inr e ↦ rw e (ap (λ x. x % 1000) (omega arith))
          ]);
      read_same = t.read_same ∙ er;
    }

pub keyboard_data-Typed :
    (cs : List ℕ) (kb : Keyboard)
    → kb.index_write < 1000
    → length cs ≤ 1000
    → Typed cs kb (keyboard_data cs kb)
unfolding keyboard_data
keyboard_data-Typed [] kb b l = record {
  held = tt;
  kept = λ d q h m g. refl;
  write_after = omega arith;
  read_same = refl;
}
keyboard_data-Typed (c ∷ cs) kb b l =
    let e = echo_char-SameRing c (push c kb) in
    let w = e.same_write ∙ push-step c kb in
    keyboard_data-cons c cs kb (echo_char c (push c kb)) _ b (omega arith)
      (e.same_buffer ∙ unfold push in refl) w (e.same_read ∙ unfold push in refl)
      (keyboard_data-Typed cs (echo_char c (push c kb)) (ground (arith, w)) (omega arith))
