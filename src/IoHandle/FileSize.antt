-- ===== src/IoHandle/FileSize.antt =====
-- `IO_Handle::get_file_size`: what `fstat` and the ioctl BLKGETSIZE64 answer is an argument, none
-- where they fail.
use independent_study.Base.{
  ℕ, ◌-◌, ◌^◌, ◌<◌, ◌≡◌, ltb, if◌then◌else◌, lt→ltb, le→ltb, Option, none, some, ℤ, pos, negsuc,
  minus_one, to_word, arith,
}
use native.Mathlib.Decide.{dec_lt}

-- S_ISBLK, S_ISREG, or neither
pub data FileKind : Type 0 where
  block regular other : FileKind

pub record Stat : Type 0 where
  pub st_mode : FileKind
  pub st_size : ℤ

-- An `unsigned long long` returned as an `off_t`.
abbrev pub to_off : ℕ → ℤ
to_off bytes = if ltb bytes (2 ^ 63) then pos bytes else negsuc (2 ^ 64 - 1 - bytes)

unfoldable pub get_file_size : Option Stat → Option ℕ → ℤ
get_file_size none blk = minus_one
get_file_size (some st) blk = elim st.st_mode [
  | block ↦ elim blk [ none ↦ minus_one | some bytes ↦ to_off bytes ]
  | regular ↦ st.st_size
  | other ↦ minus_one
]

-- The size of a block device below 2 ^ 64 bytes survives the conversion to `off_t` and back to
-- `size_t`, as the callers do, also from 2 ^ 63 bytes on, where the `off_t` is negative.
pub to_word-get_file_size :
    (size : ℤ) (bytes : ℕ)
    → bytes < 2 ^ 64
    → to_word (get_file_size (some (record { st_mode = block; st_size = size })) (some bytes))
      ≡ bytes
unfolding get_file_size
to_word-get_file_size size bytes h = elim (dec_lt bytes (2 ^ 63)) [
  | yes lt ↦ rw (lt→ltb bytes (2 ^ 63) lt) (omega arith)
  | no ge ↦ rw (le→ltb bytes (2 ^ 63) (omega arith)) (omega arith)
]
