-- ===== src/Splice.antt =====
-- source/Network/broadcastSplice.hpp: the broadcast that splices each chunk of the source through
-- one pipe for each output. The three spans, which the code indexes alike, are one list of
-- outputs. `expected_cqes` is at most 512 and the offsets are below the file's size, so that only
-- the sum of verified bytes can wrap.
pub mod Plan
pub mod Queue
pub mod Reap
pub mod Complete
pub mod Drop
pub mod Prepare
pub mod Delivery
mod Tests
use independent_study.Base.{
  ℕ, zero, suc, ◌+◌, ◌-◌, ◌^◌, ◌%◌, min, Bool, true, false, ◌||◌, ltb, leb, ◌==◌, if◌then◌else◌,
  List, [], ◌∷◌, none, some, Outcome, ok, fail, ◌>>=◌, blocked, out_of_fuel, ℤ, pos, negsuc,
  pos_part, minus_one, add_size,
}
use independent_study.Liburing.{Fd, Sqe, Cqe, Wait, failed, got, splice, Liburing}

-- SPLICE_CHUNK_SIZE
abbrev pub splice_chunk_size : ℕ
splice_chunk_size = 262144

-- `io_uring_queue_init(512, …)`, and the bound of the periodic submission
abbrev pub queue_depth : ℕ
queue_depth = 512

-- `output_files[i]`, `dest_write_pipes[i]` and `dest_read_pipes[i]`
pub record Output : Type 0 where
  pub file : Fd
  pub write_pipe : Fd
  pub read_pipe : Fd

-- The two requests for one output and the chunk of `len` bytes at `off`: the file into the pipe,
-- linked to the pipe into the output, which carries `len & 0xFFFFFFFF`.
abbrev pub fill_pipe : Fd → Output → ℕ → ℕ → Sqe ℕ
fill_pipe source o off len = record {
  request = splice source (pos off) o.write_pipe minus_one len;
  link = true;
  user_data = 0;
}

abbrev pub drain_pipe : Output → ℕ → ℕ → Sqe ℕ
drain_pipe o off len = record {
  request = splice o.read_pipe minus_one o.file (pos off) len;
  link = false;
  user_data = len % 2 ^ 32;
}

-- `if (cqe->res > 0)` under `if (io_uring_cqe_get_data(cqe))`
unfoldable pub count_cqe : ℕ → Cqe ℕ → ℕ
count_cqe verified c =
    if c.user_data == 0
    then verified
    else elim c.res [ pos n ↦ add_size verified n | negsuc _ ↦ verified ]

-- `while (expected_cqes > 0)`: what is still expected, the verified bytes, and the waits to come.
unfoldable pub reap : ℕ → ℕ → List (Wait ℕ) → Outcome (ℕ × ℕ × List (Wait ℕ))
unfolding count_cqe
reap zero verified ws = ok (0, verified, ws)
reap (suc expected) verified [] = fail blocked
reap (suc expected) verified (failed ∷ ws) = ok (suc expected, verified, ws)
reap (suc expected) verified (got c ∷ ws) = reap expected (count_cqe verified c) ws

module _ (u : Liburing ℕ) where
  open u use {Ring, queue_init, get_sqe, submit}

  pub record Progress : Type 0 where
    pub ring : Ring
    pub total_processed : ℕ
    pub verified : ℕ
    pub expected_cqes : ℕ
    pub waits : List (Wait ℕ)

  -- One round of the loop over the outputs: false is its `break`.
  unfoldable pub queue_pair : Ring → Fd → Output → ℕ → ℕ → Ring × Bool
  queue_pair r source o off len = elim (get_sqe r) [
    | none ↦ (r, false)
    | some fill ↦
        let half = fill (fill_pipe source o off len) in
        elim (get_sqe half) [
          | none ↦ (half, false)
          | some fill' ↦ (fill' (drain_pipe o off len), true)
        ]
  ]

  -- The loop over the outputs, with the new `expected_cqes`.
  unfoldable pub queue_outputs : Ring → Fd → List Output → ℕ → ℕ → ℕ → Ring × ℕ
  unfolding queue_pair
  queue_outputs r source [] off len expected = (r, expected)
  queue_outputs r source (o ∷ os) off len expected =
      let (r', went_on) = queue_pair r source o off len in
      let rest = queue_outputs r' source os off len (expected + 2) in
      if went_on then rest else (r', expected)

  -- One round of the loop over the chunks.
  unfoldable pub round : Fd → List Output → ℕ → Progress → Outcome Progress
  unfolding queue_outputs reap
  round source outs sz p =
      let len = min splice_chunk_size (sz - p.total_processed) in
      let (r, expected) = queue_outputs p.ring source outs p.total_processed len p.expected_cqes in
      let total = p.total_processed + len in
      if leb queue_depth expected || leb sz total
      then (reap expected p.verified p.waits >>= λ (left, verified, ws). ok (record {
        ring = submit r;
        total_processed = total;
        verified = verified;
        expected_cqes = left;
        waits = ws;
      }))
      else ok (record p { ring = r; total_processed = total; expected_cqes = expected })

  -- `while (total_processed < file_sz)`
  unfoldable pub rounds : ℕ → Fd → List Output → ℕ → Progress → Outcome Progress
  unfolding round
  rounds zero source outs sz p = fail out_of_fuel
  rounds (suc fuel) source outs sz p = elim (ltb p.total_processed sz) [
    | true ↦ round source outs sz p >>= λ p'. rounds fuel source outs sz p'
    | false ↦ ok p
  ]

  -- The loop from its start, with the last state kept. A file of size -1 (the error of
  -- `get_file_size`) makes no round.
  unfoldable pub broadcast : Ring → ℤ → Fd → List Output → List (Wait ℕ) → Outcome Progress
  unfolding rounds
  broadcast r file_sz source outs ws =
      rounds (suc (pos_part file_sz)) source outs (pos_part file_sz)
        (record { ring = r; total_processed = 0; verified = 0; expected_cqes = 0; waits = ws })

  -- The size of the source comes from `IO_Handle::get_file_size`.
  unfoldable pub perform_splice_broadcast : ℤ → Fd → List Output → List (Wait ℕ) → Outcome ℕ
  unfolding broadcast
  perform_splice_broadcast file_sz source outs ws = elim (queue_init queue_depth) [
    | none ↦ ok 0
    | some r ↦ broadcast r file_sz source outs ws >>= λ p. ok p.verified
  ]
