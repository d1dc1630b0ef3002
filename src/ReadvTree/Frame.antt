-- ===== src/ReadvTree/Frame.antt =====
-- What the transfers and the allocator leave alone, the broadcast leaves alone.
use independent_study.Base.{
  ℕ, zero, suc, ◌+◌, ◌-◌, ◌/◌, ◌^◌, min, ◌||◌, Bool-cases, Option-cases, inl, inr, ltb, ◌==◌, List,
  [], ◌∷◌, length, Option, none, some, Outcome, Gives, Gives-bind, ok, fail, ◌>>=◌, ℤ, pos_part,
  minus_one, is_negative,
}
use independent_study.Liburing.{Fd, Iovec}
use independent_study.IoHandle.FileSize.{get_file_size}
use independent_study.FileIo.{FileIo, Kept}
use independent_study.ReadvTree.{
  chunk_size, window_size, WindowEnd, failed, copied, add_block, allocate, free_all, transfer,
  transfer_blocks, copy_window, copy_windows, submit_read_write, sender_fd, receiver_fd, copy_node,
  iteration, iterations, tree_rounds, perform_readv_broadcast,
}

module _ (io : FileIo) (P : io.World → Type 0) (kept : Kept io chunk_size P) where
  open io use {World, fstat, blkgetsize64, posix_memalign, free, preadv, pwritev}
  open kept use {memalign_keeps, free_keeps, preadv_keeps, pwritev_keeps}

  abbrev GivesEnd : WindowEnd World → Type 0
  GivesEnd (failed w) = P w
  GivesEnd (copied w) = P w

  add_block-keeps : (v : Iovec) (r : Option (List Iovec) × World) → P r.1 → P (add_block io v r).1
  add_block-keeps v (none, w) h = h
  add_block-keeps v (some vs, w) h = h

  pub allocate-keeps : (blocks i window : ℕ) (w : World) → P w → P (allocate io blocks i window w).1
  unfolding allocate
  allocate-keeps zero i window w h = h
  allocate-keeps (suc blocks) i window w h =
      elim (Option-cases (posix_memalign 4096 chunk_size w)) [
        | inl e ↦ rw (e, allocate) h
        | inr ((p, w'), e) ↦
            rw (e, allocate)
              (add_block-keeps _ (allocate io blocks (i + 1) window w')
                (allocate-keeps blocks (i + 1) window w' (memalign_keeps w w' p e h)))
      ]

  pub free_all-keeps : (vs : List Iovec) (w : World) → P w → P (free_all io vs w)
  unfolding free_all
  free_all-keeps [] w h = h
  free_all-keeps (v ∷ vs) w h = free_all-keeps vs (free v.iov_base w) (free_keeps v.iov_base w h)

  transfer-keeps :
      (input output : Fd) (off : ℕ) (vs : List Iovec) (w : World)
      → P w
      → GivesEnd (transfer io input output off vs w)
  unfolding transfer
  transfer-keeps input output off vs w h =
      let w1 = (preadv input vs off w).1 in
      let h1 = preadv_keeps input vs off w h in
      let h2 = pwritev_keeps output vs off w1 h1 in
      elim (Bool-cases (is_negative (preadv input vs off w).0)) [
        | inl e ↦ rw e (free_all-keeps vs w1 h1)
        | inr e ↦ rw e (elim (Bool-cases (is_negative (pwritev output vs off w1).0)) [
          | inl e' ↦ rw e' (free_all-keeps vs _ h2)
          | inr e' ↦ rw e' (free_all-keeps vs _ h2)
        ])
      ]

  transfer_blocks-keeps :
      (input output : Fd) (off : ℕ) (r : Option (List Iovec) × World)
      → P r.1
      → GivesEnd (transfer_blocks io input output off r)
  unfolding transfer_blocks
  transfer_blocks-keeps input output off (none, w) h = h
  transfer_blocks-keeps input output off (some vs, w) h = transfer-keeps input output off vs w h

  copy_window-keeps :
      (input output : Fd) (off window : ℕ) (w : World)
      → P w
      → GivesEnd (copy_window io input output off window w)
  unfolding copy_window
  copy_window-keeps input output off window w h =
      transfer_blocks-keeps input output off _
        (allocate-keeps ((window + chunk_size - 1) / chunk_size) 0 window w h)

  after_window :
      (r : WindowEnd World) (k : World → Outcome (ℤ × World))
      → GivesEnd r
      → ((w : World) → P w → Gives P (k w))
      → Gives P (elim r [ failed w' ↦ ok (minus_one, w') | copied w' ↦ k w' ])
  after_window (failed w) k h next = h
  after_window (copied w) k h next = next w h

  copy_windows-keeps :
      (fuel : ℕ) (input output : Fd) (start sz total : ℕ) (w : World)
      → P w
      → Gives P (copy_windows io fuel input output start sz total w)
  unfolding copy_windows
  copy_windows-keeps zero input output start sz total w h = tt
  copy_windows-keeps (suc fuel) input output start sz total w h = elim (Bool-cases (ltb total sz)) [
    | inr e ↦ rw (e, copy_windows) h
    | inl e ↦
        let window = min window_size (sz - total) in
        rw (e, copy_windows)
          (after_window (copy_window io input output (start + total) window w)
            (λ w'. copy_windows io fuel input output start sz (total + window) w')
            (copy_window-keeps input output (start + total) window w h)
            (λ w' h'. copy_windows-keeps fuel input output start sz (total + window) w' h'))
  ]

  submit_read_write-keeps :
      (input output : Fd) (start : ℕ) (w : World)
      → P w
      → Gives P (submit_read_write io input output start w)
  unfolding submit_read_write
  submit_read_write-keeps input output start w h =
      let file_sz = get_file_size (fstat input w) (blkgetsize64 input w) in
      let sz = pos_part file_sz in
      elim (Bool-cases (is_negative file_sz || (sz == 0))) [
        | inl e ↦ rw e h
        | inr e ↦ rw e (copy_windows-keeps (suc sz) input output start sz 0 w h)
      ]

  -- The descriptors are looked up first.
  after_lookup :
      {A : Type 0} (o : Outcome Fd) (k : Fd → Outcome (A × World))
      → ((fd : Fd) → Gives P (k fd))
      → Gives P (o >>= k)
  after_lookup (ok fd) k next = next fd
  after_lookup (fail fault) k next = tt

  copy_node-keeps :
      (root : Fd) (outs : List Fd) (sender receiver : ℕ) (s : ℕ × World)
      → P s.1
      → Gives P (copy_node io root outs sender receiver s)
  unfolding copy_node
  copy_node-keeps root outs sender receiver (moved, w) h =
      after_lookup (receiver_fd io outs receiver) _ (λ dest.
        after_lookup (sender_fd io root outs sender) _ (λ source.
          Gives-bind P (submit_read_write io source dest 0 w) _
            (submit_read_write-keeps source dest 0 w h) (λ res w' h'. h')))

  iteration-keeps :
      (root : Fd) (outs : List Fd) (stride i : ℕ) (s : ℕ × World)
      → P s.1
      → Gives P (iteration io root outs stride i s)
  unfolding iteration
  iteration-keeps root outs stride i s h = elim (Bool-cases (ltb (i + stride) (length outs + 1))) [
    | inl e ↦ rw e (copy_node-keeps root outs i (i + stride) s h)
    | inr e ↦ rw e h
  ]

  iterations-keeps :
      (root : Fd) (outs : List Fd) (stride : ℕ) (is : List ℕ) (s : ℕ × World)
      → P s.1
      → Gives P (iterations io root outs stride is s)
  unfolding iterations
  iterations-keeps root outs stride [] s h = h
  iterations-keeps root outs stride (i ∷ is) s h =
      Gives-bind P (iteration io root outs stride i s) _ (iteration-keeps root outs stride i s h)
        (λ n w h'. iterations-keeps root outs stride is (n, w) h')

  module _ (schedule : ℕ → List ℕ) where
    tree_rounds-keeps :
        (left : ℕ) (root : Fd) (outs : List Fd) (round : ℕ) (s : ℕ × World)
        → P s.1
        → Gives P (tree_rounds io schedule left root outs round s)
    unfolding tree_rounds
    tree_rounds-keeps zero root outs round s h = h
    tree_rounds-keeps (suc left) root outs round s h =
        Gives-bind P (iterations io root outs (2 ^ round) (schedule round) s) _
          (iterations-keeps root outs (2 ^ round) (schedule round) s h)
          (λ n w h'. tree_rounds-keeps left root outs (round + 1) (n, w) h')

    pub perform_readv_broadcast-keeps :
        (ceil_log2 : ℕ → ℕ) (root : Fd) (outs : List Fd) (w : World)
        → P w
        → Gives P (perform_readv_broadcast io schedule ceil_log2 root outs w)
    unfolding perform_readv_broadcast
    perform_readv_broadcast-keeps ceil_log2 root outs w h =
        tree_rounds-keeps (ceil_log2 (length outs + 1)) root outs 0 (0, w) h
