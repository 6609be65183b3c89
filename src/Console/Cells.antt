-- ===== src/Console/Cells.antt =====
-- What the loops over the video memory of kernel/cga.c leave in a cell.
use domin_os.Base.{ℕ, zero, suc, ◌+◌, ◌==◌, ◌≡◌, ◌≤◌, ◌<◌, arith, Bool-cases, refl, inl, inr}
use domin_os.Console.{poke, blank, move_down, clear_screen, scroll_screen, white_on_black}

-- Another cell is as it was.
blank-below : (n buf : ℕ) (mem : ℕ → ℕ) (j : ℕ) → j < buf → blank n buf mem j ≡ mem j
unfolding blank poke
blank-below zero buf mem j h = refl
blank-below (suc n) buf mem j h =
    ground (arith, blank-below n (suc buf) (poke buf white_on_black mem) j (omega arith))

pub blank-outside : (n buf : ℕ) (mem : ℕ → ℕ) (j : ℕ) → buf + n ≤ j → blank n buf mem j ≡ mem j
unfolding blank poke
blank-outside zero buf mem j h = refl
blank-outside (suc n) buf mem j h =
    ground (arith, blank-outside n (suc buf) (poke buf white_on_black mem) j (omega arith))

pub blank-inside :
    (n buf : ℕ) (mem : ℕ → ℕ) (j : ℕ) → buf ≤ j → j < buf + n → blank n buf mem j ≡ white_on_black
unfolding blank poke
blank-inside zero buf mem j g h = ground arith
blank-inside (suc n) buf mem j g h = elim (Bool-cases (j == buf)) [
  | inl e ↦ ground (arith, blank-below n (suc buf) (poke buf white_on_black mem) j (ground arith))
  | inr e ↦ blank-inside n (suc buf) (poke buf white_on_black mem) j (ground arith) (omega arith)
]

move_down-below :
    (n dst src : ℕ) (mem : ℕ → ℕ) (j : ℕ) → j < dst → move_down n dst src mem j ≡ mem j
unfolding move_down poke
move_down-below zero dst src mem j h = refl
move_down-below (suc n) dst src mem j h =
    ground (arith, move_down-below n (suc dst) (suc src) (poke dst (mem src) mem) j (omega arith))

pub move_down-outside :
    (n dst src : ℕ) (mem : ℕ → ℕ) (j : ℕ) → dst + n ≤ j → move_down n dst src mem j ≡ mem j
unfolding move_down poke
move_down-outside zero dst src mem j h = refl
move_down-outside (suc n) dst src mem j h =
    ground (arith, move_down-outside n (suc dst) (suc src) (poke dst (mem src) mem) j (omega arith))

-- A copy to a lower address reads every cell before it is written.
pub move_down-inside :
    (n dst by : ℕ) (mem : ℕ → ℕ) (j : ℕ)
    → 0 < by
    → dst ≤ j
    → j < dst + n
    → move_down n dst (dst + by) mem j ≡ mem (j + by)
unfolding move_down poke
move_down-inside zero dst by mem j p g h = ground arith
move_down-inside (suc n) dst by mem j p g h = elim (Bool-cases (j == dst)) [
  | inl e ↦ ground (
    arith,
    move_down-below n (suc dst) (suc (dst + by)) (poke dst (mem (dst + by)) mem) j (ground arith),
  )
  | inr e ↦ ground (
    arith,
    move_down-inside n (suc dst) by (poke dst (mem (dst + by)) mem) j p (ground arith)
        (omega arith),
  )
]

pub clear_screen-inside : (mem : ℕ → ℕ) (j : ℕ) → j < 2000 → clear_screen mem j ≡ white_on_black
unfolding clear_screen
clear_screen-inside mem j h = blank-inside 2000 0 mem j (omega arith) h

pub clear_screen-outside : (mem : ℕ → ℕ) (j : ℕ) → 2000 ≤ j → clear_screen mem j ≡ mem j
unfolding clear_screen
clear_screen-outside mem j h = blank-outside 2000 0 mem j h

pub scroll_screen-up : (mem : ℕ → ℕ) (j : ℕ) → j < 1920 → scroll_screen mem j ≡ mem (j + 80)
unfolding scroll_screen
scroll_screen-up mem j h =
    rw
      (
        blank-below 80 1920 (move_down 1920 0 80 mem) j h,
        move_down-inside 1920 0 80 mem j (omega arith) (omega arith) h,
      )
      refl

pub scroll_screen-last :
    (mem : ℕ → ℕ) (j : ℕ) → 1920 ≤ j → j < 2000 → scroll_screen mem j ≡ white_on_black
unfolding scroll_screen
scroll_screen-last mem j g h = blank-inside 80 1920 (move_down 1920 0 80 mem) j g h

pub scroll_screen-outside : (mem : ℕ → ℕ) (j : ℕ) → 2000 ≤ j → scroll_screen mem j ≡ mem j
unfolding scroll_screen
scroll_screen-outside mem j h =
    rw
      (
        blank-outside 80 1920 (move_down 1920 0 80 mem) j h,
        move_down-outside 1920 0 80 mem j (omega arith),
      )
      refl
