-- ===== src/SenderPipe.antt =====
-- source/Network/sender_pipe.h: a file is read block by block through a ring of four entries. The
-- completions come as the list of waits; `open` and `close` are parameters. The sizes and the sum
-- of the bytes read stay below 2 ^ 63.
pub mod Reads
pub mod Loop
pub mod Ends
pub mod Request
pub mod Tests
use independent_study.Base.{
  ℕ, zero, suc, ◌+◌, ◌-◌, ◌*◌, ◌/◌, true, false, ◌||◌, ltb, ◌==◌, if◌then◌else◌, List, [], ◌∷◌,
  get_elem?, Option, none, some, Outcome, ok, fail, ◌>>=◌, exit_with, undefined, blocked, ℤ,
  pos_part, minus_one, is_negative,
}
use independent_study.Liburing.{Fd, Iovec, Sqe, Wait, failed, got, readv, Liburing}
use independent_study.IoHandle.FileSize.{Stat}
use independent_study.FileIo.{FileIo}

-- Q_DEPTH and BLOCK
abbrev pub q_depth : ℕ
q_depth = 4

abbrev pub block : ℕ
block = 4096

-- `iovecs[idx]`, and the request that reads a block into it.
abbrev pub block_iovec : ℕ → Iovec
block_iovec p = record { iov_base = p; iov_len = block }

abbrev pub read_block : Fd → ℕ → ℕ → ℕ → Sqe ℕ
read_block fd p idx offset = record {
  request = readv fd (block_iovec p ∷ []) offset;
  link = false;
  user_data = idx;
}

-- `FdGetFileSize`, and `GetFileSize` for what `stat` answers: -1, or the size whatever the kind.
unfoldable pub file_size : Option Stat → ℤ
file_size none = minus_one
file_size (some st) = st.st_size

-- `(fsize + BLOCK - 1) & ~(BLOCK - 1)`
abbrev pub aligned_size : ℕ → ℕ
aligned_size fsize = (fsize + block - 1) / block * block

module _ (u : Liburing ℕ) where
  open u use {Ring, queue_init, get_sqe, submit}

  -- `setup_uring`
  unfoldable pub setup_uring : Outcome Ring
  setup_uring = elim (queue_init q_depth) [ none ↦ fail (exit_with 1) | some r ↦ ok r ]

  -- The ring, the offset of the next block, `idx`, and `total_read`.
  pub record Reading : Type 0 where
    pub ring : Ring
    pub offset : ℕ
    pub idx : ℕ
    pub total_read : ℕ

  -- The inner loop, for the `left` entries that `idx` is below the depth.
  unfoldable pub fill : ℕ → Fd → List ℕ → ℕ → Reading → Outcome Reading
  fill zero fd blocks aligned s = ok s
  fill (suc left) fd blocks aligned s = elim (ltb s.offset aligned) [
    | false ↦ ok s
    | true ↦ elim (get_sqe s.ring) [
      | none ↦ ok s
      | some entry ↦ elim (get_elem? blocks s.idx) [
        | none ↦ fail undefined
        | some p ↦ fill left fd blocks aligned (record s {
          ring = entry (read_block fd p s.idx s.offset);
          offset = s.offset + block;
          idx = s.idx + 1;
        })
      ]
    ]
  ]

  -- What follows the wait: a negative result ends the loop. After a failed wait the code reads
  -- through a pointer that was never set.
  unfoldable pub read_loop : Fd → List ℕ → ℕ → List (Wait ℕ) → Reading → Outcome Reading
  unfolding fill
  read_loop fd blocks aligned [] s =
      if ltb s.offset aligned || ltb 0 s.idx
      then (fill (q_depth - s.idx) fd blocks aligned s >>= λ t.
          if t.idx == 0 then ok t else fail blocked)
      else ok s
  read_loop fd blocks aligned (failed ∷ ws) s =
      if ltb s.offset aligned || ltb 0 s.idx
      then (fill (q_depth - s.idx) fd blocks aligned s >>= λ t.
          if t.idx == 0 then ok t else fail undefined)
      else ok s
  read_loop fd blocks aligned (got c ∷ ws) s =
      let round : Outcome Reading = fill (q_depth - s.idx) fd blocks aligned s >>= λ t.
      let t' = record t { ring = submit t.ring } in
      let rest =
        read_loop fd blocks aligned ws
          (record t' { idx = t.idx - 1; total_read = t.total_read + pos_part c.res }) in
      if t.idx == 0 then ok t else if is_negative c.res then ok t' else rest in
      if ltb s.offset aligned || ltb 0 s.idx then round else ok s

-- How `read_file_request` returns: with its status, and with the state of the system.
pub record Exit (World : Type 0) : Type 0 where
  pub status : ℕ
  pub total_read : ℕ
  pub world : World

module _ (io : FileIo) (open_file : io.World → Fd × io.World)
    (close_file : Fd → io.World → io.World) (u : Liburing ℕ) where
  open io use {World, fstat, posix_memalign, free}

  unfoldable pub add_block : ℕ → Option (List ℕ) × World → Option (List ℕ) × World
  add_block p (none, w) = (none, w)
  add_block p (some ps, w) = (some (p ∷ ps), w)

  -- The loop over the four iovecs: their blocks, or none where an allocation fails.
  unfoldable pub alloc_blocks : ℕ → World → Option (List ℕ) × World
  unfolding add_block
  alloc_blocks zero w = (some [], w)
  alloc_blocks (suc n) w = elim (posix_memalign block block w) [
    | none ↦ (none, w)
    | some (p, w') ↦ add_block p (alloc_blocks n w')
  ]

  unfoldable pub free_blocks : List ℕ → World → World
  free_blocks [] w = w
  free_blocks (p ∷ ps) w = free_blocks ps (free p w)

  -- From the allocation on.
  unfoldable pub read_blocks :
      Fd → ℕ → u.Ring → List (Wait ℕ) → Option (List ℕ) × World → Outcome (Exit World)
  unfolding read_loop free_blocks
  read_blocks fd fsize r ws (none, w) = ok (record { status = 1; total_read = 0; world = w })
  read_blocks fd fsize r ws (some blocks, w) =
      read_loop u fd blocks (aligned_size fsize) ws
        (record { ring = r; offset = 0; idx = 0; total_read = 0 })
      >>= λ s. ok (record {
        status = 0;
        total_read = s.total_read;
        world = close_file fd (free_blocks blocks w);
      })

  -- What follows `open`.
  unfoldable pub read_opened : u.Ring → List (Wait ℕ) → Fd × World → Outcome (Exit World)
  unfolding file_size alloc_blocks read_blocks
  read_opened r ws (fd, w) =
      let fsize = file_size (fstat fd w) in
      if is_negative fd || is_negative fsize
      then ok (record { status = 1; total_read = 0; world = w })
      else read_blocks fd (pos_part fsize) r ws (alloc_blocks q_depth w)

  unfoldable pub read_file_request : World → List (Wait ℕ) → Outcome (Exit World)
  unfolding setup_uring read_opened
  read_file_request w ws = setup_uring u >>= λ r. read_opened r ws (open_file w)

  -- `send_pipe_data` does not look at the status.
  unfoldable pub send_pipe_data : World → List (Wait ℕ) → Outcome World
  unfolding read_file_request
  send_pipe_data w ws = read_file_request w ws >>= λ e. ok e.world
