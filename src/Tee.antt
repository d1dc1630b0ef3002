-- ===== src/Tee.antt =====
-- source/Network/broadcastTee.hpp: the broadcast that splices each chunk of the source into a
-- pipe, tees it to the pipes of all outputs but the last, and splices each pipe into its output.
-- The spans that the code indexes alike are one list of outputs; `CHUNK_SIZE` is 256 KiB.
pub mod Pack
pub mod Cqes
pub mod Prepare
pub mod Plan
pub mod Queue
pub mod Complete
pub mod Overflow
pub mod Delivery
mod Tests
use independent_study.Base.{
  ℕ, zero, suc, ◌+◌, ◌-◌, min, true, false, ltb, if◌then◌else◌, List, [], ◌∷◌, length, none, some,
  Outcome, ok, fail, ◌>>=◌, exit_with, undefined, blocked, out_of_fuel, ℤ, pos, minus_one,
  is_negative, add_size, to_word,
}
use independent_study.Liburing.{Fd, Sqe, Cqe, Request, splice, tee, Liburing}
use independent_study.Liburing.Push.{push}

-- CHUNK_SIZE
abbrev pub chunk_size : ℕ
chunk_size = 262144

-- `io_uring_queue_init(1024, …)`
abbrev pub queue_depth : ℕ
queue_depth = 1024

-- EIO
abbrev pub eio : ℕ
eio = 5

-- `output_files[i]`, `dest_write_pipes[i]` and `dest_read_pipes[i]`
pub record Output : Type 0 where
  pub file : Fd
  pub write_pipe : Fd
  pub read_pipe : Fd

-- The handles that stay the same throughout.
pub record Source : Type 0 where
  pub file : Fd
  pub write_pipe : Fd
  pub read_pipe : Fd

abbrev pub linked : Request → ℕ → Sqe ℕ
linked r n = record { request = r; link = true; user_data = n }

abbrev pub fill_source : Source → ℕ → ℕ → Sqe ℕ
fill_source s off len = linked (splice s.file (pos off) s.write_pipe minus_one len) 0

abbrev pub tee_branch : Source → Output → ℕ → Sqe ℕ
tee_branch s o len = linked (tee s.read_pipe o.write_pipe len) 0

abbrev pub drain_branch : Output → ℕ → ℕ → Sqe ℕ
drain_branch o off len = linked (splice o.read_pipe minus_one o.file (pos off) len) len

-- The last request ends the chain: it is not linked.
abbrev pub drain_source : Source → Output → ℕ → ℕ → Sqe ℕ
drain_source s o off len = record {
  request = splice s.read_pipe minus_one o.file (pos off) len;
  link = false;
  user_data = len;
}

-- The body of `io_uring_for_each_cqe`: the moved bytes behind one completion.
unfoldable pub count_cqe : ℕ → Cqe ℕ → ℕ
count_cqe moved c =
    if ltb 0 c.user_data
    then (if is_negative c.res then moved else add_size moved c.user_data)
    else moved

unfoldable pub count_cqes : ℕ → List (Cqe ℕ) → ℕ
unfolding count_cqe
count_cqes moved [] = moved
count_cqes moved (c ∷ cs) = count_cqes (count_cqe moved c) cs

module _ (u : Liburing ℕ) where
  open u use {Ring, queue_init, get_sqe, submit}

  -- The loop over all outputs but the last, and the request for the last one, with the number of
  -- submissions. Of no outputs, `output_files.size() - 1` is 2 ^ 64 - 1, and the loop reads
  -- behind the ends of the spans.
  unfoldable pub queue_branches : Ring → Source → List Output → ℕ → ℕ → ℕ → Outcome (Ring × ℕ)
  unfolding push
  queue_branches r s [] off len n = fail undefined
  queue_branches r s (o ∷ []) off len n =
      push u r (drain_source s o off len) >>= λ r'. ok (r', n + 1)
  queue_branches r s (o ∷ o' ∷ os) off len n = push u r (tee_branch s o len) >>= λ r1.
      push u r1 (drain_branch o off len) >>= λ r2. queue_branches r2 s (o' ∷ os) off len (n + 2)

  pub record Progress : Type 0 where
    pub ring : Ring
    pub total_processed : ℕ
    pub total_data_moved : ℕ
    -- the completions that each later `io_uring_submit_and_wait` waits for
    pub replies : List (List (Cqe ℕ))

  -- `io_uring_submit_and_wait(&ring, submissions)`: it waits for as many completions.
  unfoldable pub wait_replies :
      ℕ → List (List (Cqe ℕ)) → Outcome (List (Cqe ℕ) × List (List (Cqe ℕ)))
  wait_replies n [] = fail blocked
  wait_replies n (cs ∷ rest) = if ltb (length cs) n then fail blocked else ok (cs, rest)

  -- One round of the loop over the chunks.
  unfoldable pub round : Source → List Output → ℕ → Progress → Outcome Progress
  unfolding push queue_branches wait_replies count_cqes
  round s outs sz p = do
    let len = min chunk_size (sz - p.total_processed)
    r ← push u p.ring (fill_source s p.total_processed len)
    (r', submissions) ← queue_branches r s outs p.total_processed len 1
    (cs, rest) ← wait_replies submissions p.replies
    ok (record {
      ring = submit r';
      total_processed = p.total_processed + len;
      total_data_moved = count_cqes p.total_data_moved cs;
      replies = rest;
    })

  -- `while (total_processed < file_sz)`
  unfoldable pub rounds : ℕ → Source → List Output → ℕ → Progress → Outcome Progress
  unfolding round
  rounds zero s outs sz p = fail out_of_fuel
  rounds (suc fuel) s outs sz p = elim (ltb p.total_processed sz) [
    | true ↦ round s outs sz p >>= λ p'. rounds fuel s outs sz p'
    | false ↦ ok p
  ]

  unfoldable pub broadcast :
      Ring → ℤ → Source → List Output → List (List (Cqe ℕ)) → Outcome Progress
  unfolding rounds
  broadcast r file_sz s outs replies =
      rounds (suc (to_word file_sz)) s outs (to_word file_sz)
        (record { ring = r; total_processed = 0; total_data_moved = 0; replies = replies })

  unfoldable pub perform_tee_broadcast : ℤ → Source → List Output → List (List (Cqe ℕ)) → Outcome ℕ
  unfolding broadcast
  perform_tee_broadcast file_sz s outs replies = elim (queue_init queue_depth) [
    | none ↦ fail (exit_with eio)
    | some r ↦ broadcast r file_sz s outs replies >>= λ p. ok p.total_data_moved
  ]
