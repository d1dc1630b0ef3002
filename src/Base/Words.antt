-- ===== src/Base/Words.antt =====
-- Sums and shifts of 64-bit unsigned words.
use Prim.Native.Nat.{ℕ, ◌+◌, ◌*◌, ◌%◌, ◌^◌}

abbrev pub word_mod : ℕ
word_mod = 2 ^ 64

-- `size_t` addition wraps.
abbrev pub add_size : ℕ → ℕ → ℕ
add_size a b = (a + b) % word_mod

-- `x << k` of a 64-bit word.
abbrev pub shl : ℕ → ℕ → ℕ
shl x k = x * 2 ^ k % word_mod
