-- ===== src/Splice/Plan.antt =====
-- The requests that a whole broadcast asks for, chunk by chunk.
use independent_study.Base.{
  ℕ, zero, suc, ◌+◌, ◌-◌, ◌*◌, ◌/◌, min, List, [], ◌∷◌, ◌++◌, length, ◌≡◌, arith,
}
use independent_study.Liburing.{Fd, Sqe}
use independent_study.Splice.{Output, splice_chunk_size, fill_pipe, drain_pipe}

-- One chunk for every output in turn.
abbrev pub pairs : Fd → List Output → ℕ → ℕ → List (Sqe ℕ)
pairs source [] off len = []
pairs source (o ∷ os) off len =
    fill_pipe source o off len ∷ drain_pipe o off len ∷ pairs source os off len

pub length-pairs :
    (source : Fd) (os : List Output) (off len : ℕ)
    → length (pairs source os off len) ≡ 2 * length os
length-pairs source [] off len = omega arith
length-pairs source (o ∷ os) off len = omega (arith, length-pairs source os off len)

-- The k-th chunk of a file of `sz` bytes.
abbrev pub chunk : Fd → List Output → ℕ → ℕ → List (Sqe ℕ)
chunk source os sz k =
    pairs source os (k * splice_chunk_size) (min splice_chunk_size (sz - k * splice_chunk_size))

-- `n` chunks from the k-th on.
unfoldable pub chunks_from : Fd → List Output → ℕ → ℕ → ℕ → List (Sqe ℕ)
chunks_from source os sz k zero = []
chunks_from source os sz k (suc n) = chunk source os sz k ++ chunks_from source os sz (k + 1) n

-- How many chunks the file has.
abbrev pub chunk_count : ℕ → ℕ
chunk_count sz = (sz + splice_chunk_size - 1) / splice_chunk_size

-- Every chunk for every output, in order.
abbrev pub plan : Fd → List Output → ℕ → List (Sqe ℕ)
plan source os sz = chunks_from source os sz 0 (chunk_count sz)
