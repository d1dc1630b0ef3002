-- ===== src/ReadvTree.antt =====
-- source/IOuring/readv_broadcaster.hpp: the broadcast in rounds, in which every node that has the
-- file copies it to one that has not. Node 0 is the source, node i the output i - 1. The
-- iterations of one round, which threads share, run in an order that is a parameter, each as a
-- whole. An `int` that counts nodes is a plain number, which does not overflow with fewer than
-- 2 ^ 31 nodes.
pub mod Window
pub mod Copy
pub mod Nodes
pub mod Rounds
pub mod Tree
pub mod Memory
pub mod Frame
mod Tests
use independent_study.Base.{
  ℕ, zero, suc, ◌+◌, ◌-◌, ◌*◌, ◌/◌, ◌^◌, min, true, false, ◌||◌, ltb, ◌==◌, if◌then◌else◌, List, [],
  ◌∷◌, length, get_elem?, Option, none, some, Outcome, ok, fail, ◌>>=◌, undefined, out_of_fuel, ℤ,
  pos, pos_part, minus_one, is_negative, add_size, to_word,
}
use independent_study.Liburing.{Fd, Iovec}
use independent_study.IoHandle.FileSize.{get_file_size}
use independent_study.FileIo.{FileIo}

-- CHUNK_SIZE
abbrev pub chunk_size : ℕ
chunk_size = 65536

-- MAX_BLOCKS * CHUNK_SIZE
abbrev pub window_size : ℕ
window_size = 67108864

-- How the transfer of one window ends: `failed` is `return -1`.
pub data WindowEnd (World : Type 0) : Type 0 where
  failed copied : World → WindowEnd World

module _ (io : FileIo) where
  open io use {World, fstat, blkgetsize64, posix_memalign, free, preadv, pwritev}

  abbrev pub add_block : Iovec → Option (List Iovec) × World → Option (List Iovec) × World
  add_block v (none, w) = (none, w)
  add_block v (some vs, w) = (some (v ∷ vs), w)

  -- The allocation phase: the blocks from the i-th on, or none where an allocation fails.
  unfoldable pub allocate : ℕ → ℕ → ℕ → World → Option (List Iovec) × World
  allocate zero i window w = (some [], w)
  allocate (suc blocks) i window w = elim (posix_memalign 4096 chunk_size w) [
    | none ↦ (none, w)
    | some (ptr, w') ↦
        let bytes_to_read = min chunk_size (window - i * chunk_size) in
        add_block (record { iov_base = ptr; iov_len = bytes_to_read })
          (allocate blocks (i + 1) window w')
  ]

  -- `for (auto &v : iovecs) free(v.iov_base);`
  unfoldable pub free_all : List Iovec → World → World
  free_all [] w = w
  free_all (v ∷ vs) w = free_all vs (free v.iov_base w)

  -- The transfers of one window, whose blocks are freed in any case.
  unfoldable pub transfer : Fd → Fd → ℕ → List Iovec → World → WindowEnd World
  unfolding free_all
  transfer input output off vs w =
      let (res, w1) = preadv input vs off w in
      if is_negative res
      then failed (free_all vs w1)
      else let (res', w2) = pwritev output vs off w1 in
        if is_negative res' then failed (free_all vs w2) else copied (free_all vs w2)

  -- Where an allocation failed, the blocks before it are kept.
  unfoldable pub transfer_blocks : Fd → Fd → ℕ → Option (List Iovec) × World → WindowEnd World
  unfolding transfer
  transfer_blocks input output off (none, w) = failed w
  transfer_blocks input output off (some vs, w) = transfer input output off vs w

  -- One round of `while (total_processed < file_sz)` for a window of `window` bytes.
  unfoldable pub copy_window : Fd → Fd → ℕ → ℕ → World → WindowEnd World
  unfolding allocate transfer_blocks
  copy_window input output off window w =
      let blocks = (window + chunk_size - 1) / chunk_size in
      transfer_blocks input output off (allocate blocks 0 window w)

  unfoldable pub copy_windows : ℕ → Fd → Fd → ℕ → ℕ → ℕ → World → Outcome (ℤ × World)
  unfolding copy_window
  copy_windows zero input output start sz total w = fail out_of_fuel
  copy_windows (suc fuel) input output start sz total w = elim (ltb total sz) [
    | false ↦ ok (pos total, w)
    | true ↦
        let window = min window_size (sz - total) in
        elim (copy_window input output (start + total) window w) [
          | failed w' ↦ ok (minus_one, w')
          | copied w' ↦ copy_windows fuel input output start sz (total + window) w'
        ]
  ]

  unfoldable pub submit_read_write : Fd → Fd → ℕ → World → Outcome (ℤ × World)
  unfolding copy_windows get_file_size
  submit_read_write input output start w =
      let file_sz = get_file_size (fstat input w) (blkgetsize64 input w) in
      let sz = pos_part file_sz in
      if is_negative file_sz || (sz == 0)
      then ok (pos 0, w)
      else copy_windows (suc sz) input output start sz 0 w

  -- `sender_id == 0`, or `output_files[src_idx]`
  unfoldable pub sender_fd : Fd → List Fd → ℕ → Outcome Fd
  sender_fd root outs sender =
      if sender == 0
      then ok root
      else elim (get_elem? outs (sender - 1)) [ none ↦ fail undefined | some fd ↦ ok fd ]

  -- `output_files[dest_idx]`
  unfoldable pub receiver_fd : List Fd → ℕ → Outcome Fd
  receiver_fd outs receiver = elim (get_elem? outs (receiver - 1)) [
    | none ↦ fail undefined
    | some fd ↦ ok fd
  ]

  -- One iteration of the loop that the threads share, with `data_transfer`.
  unfoldable pub copy_node : Fd → List Fd → ℕ → ℕ → ℕ × World → Outcome (ℕ × World)
  unfolding submit_read_write sender_fd receiver_fd
  copy_node root outs sender receiver (moved, w) = do
    dest ← receiver_fd outs receiver
    source ← sender_fd root outs sender
    (res, w') ← submit_read_write source dest 0 w
    ok (add_size moved (to_word res), w')

  unfoldable pub iteration : Fd → List Fd → ℕ → ℕ → ℕ × World → Outcome (ℕ × World)
  unfolding copy_node
  iteration root outs stride i s =
      if ltb (i + stride) (length outs + 1) then copy_node root outs i (i + stride) s else ok s

  unfoldable pub iterations : Fd → List Fd → ℕ → List ℕ → ℕ × World → Outcome (ℕ × World)
  unfolding iteration
  iterations root outs stride [] s = ok s
  iterations root outs stride (i ∷ is) s =
      iteration root outs stride i s >>= λ s'. iterations root outs stride is s'

  -- `schedule` gives the order of each round's iterations.
  module _ (schedule : ℕ → List ℕ) where
    unfoldable pub tree_rounds : ℕ → Fd → List Fd → ℕ → ℕ × World → Outcome (ℕ × World)
    unfolding iterations
    tree_rounds zero root outs round s = ok s
    tree_rounds (suc left) root outs round s =
        iterations root outs (2 ^ round) (schedule round) s >>= λ s'.
        tree_rounds left root outs (round + 1) s'

    -- `std::ceil(std::log2(total_nodes))` is a parameter.
    unfoldable pub perform_readv_broadcast : (ℕ → ℕ) → Fd → List Fd → World → Outcome (ℕ × World)
    unfolding tree_rounds
    perform_readv_broadcast ceil_log2 root outs w =
        tree_rounds (ceil_log2 (length outs + 1)) root outs 0 (0, w)
