-- ===== src/Tee/Pack.antt =====
-- source/Network/broadcastTee.hpp: `pack_data`, the fields that `process_cqes` takes out again, and
-- the two functions that prepare one request. On unsigned numbers `& (2 ^ k - 1)` is `% 2 ^ k`,
-- and shifts are products and quotients modulo 2 ^ 64.
use Prim.Native.Nat.{bit_or}
use independent_study.Base.{ℕ, ◌+◌, ◌*◌, ◌/◌, ◌%◌, ◌^◌, ◌<◌, ◌≡◌, ap, ◌∙◌, ℤ, to_word, shl, arith}
use independent_study.Base.Bits.{bit_or_low}

unfoldable pub pack_data : ℤ → ℤ → ℕ → ℕ
pack_data fd offset size =
    let flags : ℕ = bit_or 0 (shl (to_word fd % 2 ^ 4) 60) in
    let sized : ℕ = bit_or flags (shl (size % 2 ^ 20) 40) in bit_or sized (to_word offset % 2 ^ 40)

abbrev pub packed_fd : ℕ → ℕ
packed_fd packed = packed / 2 ^ 60 % 2 ^ 4

abbrev pub packed_size : ℕ → ℕ
packed_size packed = packed / 2 ^ 40 % 2 ^ 20

abbrev pub packed_offset : ℕ → ℕ
packed_offset packed = packed % 2 ^ 40

-- The three fields do not overlap.
pack_sum :
    (fd size offset : ℕ)
    → fd < 2 ^ 4
    → size < 2 ^ 20
    → offset < 2 ^ 40
    → bit_or (bit_or (bit_or 0 (shl fd 60)) (shl size 40)) offset
      ≡ fd * 2 ^ 60 + size * 2 ^ 40 + offset
pack_sum fd size offset hf hs ho =
    ap (λ x. bit_or (bit_or (bit_or 0 x) (shl size 40)) offset) (omega arith)
    ∙ ap (λ x. bit_or (bit_or x (shl size 40)) offset)
        (bit_or_low 64 0 (fd * 2 ^ 60) (omega arith) ∙ omega arith)
    ∙ ap (λ x. bit_or (bit_or (fd * 2 ^ 60) x) offset) (omega arith)
    ∙ ap (λ x. bit_or x offset) (bit_or_low 60 fd (size * 2 ^ 40) (omega arith) ∙ omega arith)
    ∙ bit_or_low 40 (fd * 2 ^ 20 + size) offset ho
    ∙ omega arith

-- Whatever is packed, `process_cqes` takes out again the low 4 bits of the descriptor, the low 20
-- of the size and the low 40 of the offset; so a descriptor below 16, a size below 1 MiB and an
-- offset below 1 TiB come back, and nothing above does.
pub packed-pack_data :
    (fd offset : ℤ) (size : ℕ)
    → (packed_fd (pack_data fd offset size) ≡ to_word fd % 2 ^ 4)
      × (packed_size (pack_data fd offset size) ≡ size % 2 ^ 20)
      × (packed_offset (pack_data fd offset size) ≡ to_word offset % 2 ^ 40)
unfolding pack_data
packed-pack_data fd offset size =
    let e =
      pack_sum (to_word fd % 2 ^ 4) (size % 2 ^ 20) (to_word offset % 2 ^ 40) (omega arith)
        (omega arith) (omega arith) in
    let hf : to_word fd % 2 ^ 4 < 2 ^ 4 = omega arith in
    let ho : to_word offset % 2 ^ 40 < 2 ^ 40 = omega arith in
    (omega (arith, e, hf, ho), omega (arith, e, hf, ho), omega (arith, e, hf, ho))
