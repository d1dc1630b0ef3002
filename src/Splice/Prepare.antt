-- ===== src/Splice/Prepare.antt =====
-- source/Network/broadcastSplice.hpp: `prepare_splice`, which queues the two requests of every
-- chunk of the input, the one that drains the pipe before the one that fills it, and submits
-- nothing. The offsets are below the file's size, so that no sum wraps.
pub mod Chunks
use Prim.Native.Nat.{bit_or}
use independent_study.Base.{
  ℕ, zero, suc, ◌+◌, ◌-◌, ◌%◌, ◌^◌, min, true, false, ltb, Outcome, ok, fail, ◌>>=◌, out_of_fuel, ℤ,
  pos, minus_one, pos_part, to_word, shl,
}
use independent_study.Liburing.{Fd, Sqe, splice, Liburing}
use independent_study.Liburing.Push.{push}
use independent_study.Splice.{splice_chunk_size}

-- The native handles of the four arguments.
pub record Handles : Type 0 where
  pub input : Fd
  pub output : Fd
  pub pipe_r : Fd
  pub pipe_w : Fd

-- `(output << 32) | (n & 0xFFFFFFFF)`
unfoldable pub pack_output : Handles → ℕ → ℕ
pack_output h n = bit_or (shl (to_word h.output) 32) (n % 2 ^ 32)

abbrev pub drain_data : Handles → ℕ → ℕ → ℕ → Sqe ℕ
drain_data h off len word = record {
  request = splice h.pipe_r minus_one h.output (pos off) len;
  link = false;
  user_data = word;
}

abbrev pub fill_data : Handles → ℕ → ℕ → ℕ → Sqe ℕ
fill_data h off len word = record {
  request = splice h.input (pos off) h.pipe_w minus_one len;
  link = false;
  user_data = word;
}

-- The two entries of a chunk.
unfoldable pub drain_entry : Handles → ℕ → ℕ → Sqe ℕ
unfolding pack_output
drain_entry h off len = drain_data h off len (pack_output h len)

unfoldable pub fill_entry : Handles → ℕ → ℕ → Sqe ℕ
unfolding pack_output
fill_entry h off len = fill_data h off len (pack_output h 0)

module _ (u : Liburing ℕ) where
  open u use {Ring}

  -- One round of the loop.
  unfoldable pub prepare_chunk : Ring → Handles → ℕ → ℕ → Outcome Ring
  unfolding push drain_entry fill_entry
  prepare_chunk r h off len =
      push u r (drain_entry h off len) >>= λ half. push u half (fill_entry h off len)

  -- `while (total_processed < file_sz)`, with `sqe_count`.
  unfoldable pub prepare_chunks : ℕ → Handles → ℕ → Ring → ℕ → ℕ → Outcome (Ring × ℕ)
  unfolding prepare_chunk
  prepare_chunks zero h sz r total count = fail out_of_fuel
  prepare_chunks (suc fuel) h sz r total count =
      let len = min splice_chunk_size (sz - total) in
      elim (ltb total sz) [
        | true ↦ prepare_chunk r h total len >>= λ r'.
            prepare_chunks fuel h sz r' (total + len) (count + 2)
        | false ↦ ok (r, count)
      ]

  -- A size of -1 makes no round.
  unfoldable pub prepare_splice : Ring → ℤ → Handles → Outcome (Ring × ℕ)
  unfolding prepare_chunks
  prepare_splice r file_sz h = prepare_chunks (suc (pos_part file_sz)) h (pos_part file_sz) r 0 0
