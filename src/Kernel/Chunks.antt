-- ===== src/Kernel/Chunks.antt =====
-- A file cut into chunks of 256 KiB, as source/Network/broadcastSplice.hpp (SPLICE_CHUNK_SIZE) and
-- broadcastTee.hpp (CHUNK_SIZE) both cut it.
use native.Mathlib.Decide.{dec_lt}
use independent_study.Base.{
  ℕ, suc, ◌+◌, ◌-◌, ◌*◌, ◌/◌, ◌≤◌, ◌≡◌, ap, sym, ◌∙◌, min, List, length, take, arith,
}
use independent_study.Base.Slices.{take_all}

abbrev pub chunk_bytes : ℕ
chunk_bytes = 262144

abbrev pub chunks_in : ℕ → ℕ
chunks_in sz = (sz + chunk_bytes - 1) / chunk_bytes

abbrev pub chunk_length : ℕ → ℕ → ℕ
chunk_length sz j = min chunk_bytes (sz - j * chunk_bytes)

-- The bytes of the chunks before the j-th.
abbrev pub bytes_before : ℕ → List ℕ → List ℕ
bytes_before j src = take (j * chunk_bytes) src

pub chunk_fits : (sz j n : ℕ) → j + suc n ≡ chunks_in sz → j * chunk_bytes + chunk_length sz j ≤ sz
chunk_fits sz j n h = omega arith

pub next_bytes :
    (src : List ℕ) (j n : ℕ)
    → j + suc n ≡ chunks_in (length src)
    → take (j * chunk_bytes + chunk_length (length src) j) src ≡ bytes_before (j + 1) src
next_bytes src j n h = elim (dec_lt (length src) ((j + 1) * chunk_bytes)) [
  | yes last ↦
      take_all (j * chunk_bytes + chunk_length (length src) j) src (omega arith)
      ∙ sym (take_all ((j + 1) * chunk_bytes) src (omega arith))
  | no full ↦
      let same : j * chunk_bytes + chunk_length (length src) j ≡ (j + 1) * chunk_bytes =
        omega arith in
      ap (λ n. take n src) same
]

pub all_bytes : (src : List ℕ) → bytes_before (chunks_in (length src)) src ≡ src
all_bytes src = take_all (chunks_in (length src) * chunk_bytes) src (omega arith)
