-- ===== src/Tee/Prepare.antt =====
-- source/Network/broadcastTee.hpp: `OP_FLAGS`, `prepare_tee` and `prepare_splice`, which queue one
-- request each and return 1, or 0 if the queue is full.
use independent_study.Base.{ℕ, Bool, none, some, ℤ, pos, minus_one}
use independent_study.Liburing.{Fd, Sqe, splice, tee, Liburing}
use independent_study.Tee.Pack.{pack_data}

pub data OpFlags : Type 0 where
  src_splice_pipe pipe_tee_pipe pipe_splice_pipe pipe_splice_dest : OpFlags

-- The `switch`: the offsets into the input and into the output.
unfoldable pub off_in : OpFlags → ℤ → ℤ
off_in src_splice_pipe offset = offset
off_in pipe_tee_pipe offset = minus_one
off_in pipe_splice_pipe offset = minus_one
off_in pipe_splice_dest offset = minus_one

unfoldable pub off_out : OpFlags → ℤ → ℤ
off_out src_splice_pipe offset = minus_one
off_out pipe_tee_pipe offset = minus_one
off_out pipe_splice_pipe offset = minus_one
off_out pipe_splice_dest offset = offset

abbrev pub tee_sqe : Fd → Fd → ℕ → Bool → Sqe ℕ
tee_sqe fd_in fd_out size link = record {
  request = tee fd_in fd_out size;
  link = link;
  user_data = pack_data fd_out (pos 0) size;
}

abbrev pub splice_sqe : Fd → Fd → OpFlags → ℤ → ℕ → Bool → Sqe ℕ
splice_sqe fd_in fd_out flag offset size link = record {
  request = splice fd_in (off_in flag offset) fd_out (off_out flag offset) size;
  link = link;
  user_data = pack_data fd_out offset size;
}

module _ (u : Liburing ℕ) where
  open u use {Ring, depth, queued, get_sqe, get_full}

  unfoldable pub prepare_tee : Ring → Fd → Fd → ℕ → Bool → Ring × ℕ
  prepare_tee r fd_in fd_out size link = elim (get_sqe r) [
    | none ↦ (r, 0)
    | some fill ↦ (fill (tee_sqe fd_in fd_out size link), 1)
  ]

  unfoldable pub prepare_splice : Ring → Fd → Fd → OpFlags → ℤ → ℕ → Bool → Ring × ℕ
  prepare_splice r fd_in fd_out flag offset size link = elim (get_sqe r) [
    | none ↦ (r, 0)
    | some fill ↦ (fill (splice_sqe fd_in fd_out flag offset size link), 1)
  ]
