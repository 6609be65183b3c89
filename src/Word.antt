-- ===== src/Word.antt =====
-- 32-bit machine words: an `int` is its two's complement bit pattern, below 2 ^ 32.
use domin_os.Base.{ℕ, ◌+◌, ◌-◌, ◌%◌, ◌^◌, Bool, ltb}

abbrev pub word : ℕ
word = 2 ^ 32

-- `-n` as a bit pattern, for 0 < n ≤ 2 ^ 31.
abbrev pub neg : ℕ → ℕ
neg n = word - n

-- The rank of a bit pattern in the signed order.
abbrev pub rank : ℕ → ℕ
rank a = (a + 2 ^ 31) % word

-- `a < b` on `int`.
abbrev pub int_lt : ℕ → ℕ → Bool
int_lt a b = ltb (rank a) (rank b)

abbrev pub add32 : ℕ → ℕ → ℕ
add32 a b = (a + b) % word

abbrev pub sub32 : ℕ → ℕ → ℕ
sub32 a b = (a + word - b % word) % word
