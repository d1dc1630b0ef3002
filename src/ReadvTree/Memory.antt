-- ===== src/ReadvTree/Memory.antt =====
-- What `submit_read_write` does with the blocks that it allocates, whatever the transfers give.
use independent_study.Base.{
  ℕ, zero, suc, ◌+◌, ◌-◌, ◌*◌, ◌/◌, ◌≤◌, ◌<◌, ◌≡◌, refl, ap, sym, ◌∙◌, min, false, ◌||◌, ltb,
  ltb→lt, lt→ltb, ◌==◌, if◌then◌else◌, Bool-cases, ◌⊎◌, inl, inr, List, [], ◌∷◌, none, some, ok, ℤ,
  pos, minus_one, pos_part, is_negative, arith,
}
use independent_study.Base.Sums.{weigh}
use independent_study.Liburing.{Fd, Iovec}
use independent_study.IoHandle.FileSize.{get_file_size}
use independent_study.FileIo.{FileIo, Counting}
use independent_study.ReadvTree.{
  chunk_size, window_size, WindowEnd, failed, copied, add_block, allocate, free_all, transfer,
  transfer_blocks, copy_window, copy_windows, submit_read_write,
}

-- How many of the blocks stand at an address.
abbrev at_address : ℕ → List Iovec → ℕ
at_address q = weigh (λ v. if v.iov_base == q then 1 else 0)

abbrev end_world : {W : Type 0} → WindowEnd W → W
end_world (failed w) = w
end_world (copied w) = w

WindowEnd-cases :
    {W : Type 0} (r : WindowEnd W) → ((w : W) × (r ≡ failed w)) ⊎ ((w : W) × (r ≡ copied w))
WindowEnd-cases (failed w) = inl (w, refl)
WindowEnd-cases (copied w) = inr (w, refl)

not_empty : (n : ℕ) → 0 < n → (n == 0) ≡ false
not_empty n h = ground arith

module _ (io : FileIo) (counting : Counting io chunk_size) where
  open io use {World, fstat, blkgetsize64, posix_memalign, preadv, pwritev}
  open counting use {held, alloc_holds, free_releases, preadv_holds, pwritev_holds}

  -- The same blocks are allocated.
  abbrev pub Balanced : World → World → Type 0
  Balanced w w' = (q : ℕ) → held q w' ≡ held q w

  free_all-held :
      (vs : List Iovec) (w : World)
      → ((q : ℕ) → at_address q vs ≤ held q w)
      → (q : ℕ) → held q (free_all io vs w) + at_address q vs ≡ held q w
  unfolding free_all
  free_all-held [] w owned q = omega arith
  free_all-held (v ∷ vs) w owned q =
      let p = v.iov_base in
      let mine : 1 ≤ held p w = ground (arith, owned p) in
      let rest =
        free_all-held vs (io.free p w) (λ r. omega (arith, owned r, free_releases p w r mine)) q in
      omega (arith, rest, free_releases p w q mine)

  transfer-held :
      (input output : Fd) (off : ℕ) (vs : List Iovec) (w : World)
      → ((q : ℕ) → at_address q vs ≤ held q w)
      → (q : ℕ)
      → held q (end_world (transfer io input output off vs w)) + at_address q vs ≡ held q w
  unfolding transfer
  transfer-held input output off vs w owned q =
      let w1 = (preadv input vs off w).1 in
      let w2 = (pwritev output vs off w1).1 in
      let after_read =
        free_all-held vs w1 (λ r. omega (arith, owned r, preadv_holds input vs off w r)) q in
      let after_write =
        free_all-held vs w2
          (λ r.
            omega (arith, owned r, preadv_holds input vs off w r, pwritev_holds output vs off w1 r))
          q in
      elim (Bool-cases (is_negative (preadv input vs off w).0)) [
        | inl e ↦ rw e (after_read ∙ preadv_holds input vs off w q)
        | inr e ↦ rw e (elim (Bool-cases (is_negative (pwritev output vs off w1).0)) [
          | inl e' ↦
              rw e' (after_write ∙ pwritev_holds output vs off w1 q ∙ preadv_holds input vs off w q)
          | inr e' ↦
              rw e' (after_write ∙ pwritev_holds output vs off w1 q ∙ preadv_holds input vs off w q)
        ])
      ]

  module _
      (never_fails : (w : World)
        → (p : ℕ) × (w' : World) × (posix_memalign 4096 chunk_size w ≡ some (p, w'))) where
    record Allocated (blocks i window : ℕ) (w : World) : Type 0 where
      iovecs : List Iovec
      world : World
      result : allocate io blocks i window w ≡ (some iovecs, world)
      holds : (q : ℕ) → held q world ≡ held q w + at_address q iovecs

    allocate_lem : (blocks i window : ℕ) (w : World) → Allocated blocks i window w
    unfolding allocate
    allocate_lem zero i window w = record {
      iovecs = [];
      world = w;
      result = refl;
      holds = λ q. omega arith;
    }
    allocate_lem (suc blocks) i window w =
        let (p, w', e) = never_fails w in
        let v : Iovec = record {
          iov_base = p;
          iov_len = min chunk_size (window - i * chunk_size);
        } in
        let rest = allocate_lem blocks (i + 1) window w' in
        record {
          iovecs = v ∷ rest.iovecs;
          world = rest.world;
          result = rw (e, allocate) (ap (add_block io v) rest.result);
          holds = λ q. omega (arith, rest.holds q, alloc_holds w w' p q e);
        }

    copy_window-Balanced :
        (input output : Fd) (off window : ℕ) (w : World)
        → Balanced w (end_world (copy_window io input output off window w))
    unfolding copy_window transfer_blocks
    copy_window-Balanced input output off window w q =
        let a = allocate_lem ((window + chunk_size - 1) / chunk_size) 0 window w in
        ap (λ r. held q (end_world (transfer_blocks io input output off r))) a.result
        ∙ omega (
          arith,
          a.holds q,
          transfer-held input output off a.iovecs a.world (λ r. omega (arith, a.holds r)) q,
        )

    copy_windows-Balanced :
        (input output : Fd) (fuel start sz total : ℕ) (w : World)
        → sz < fuel + total
        → total ≤ sz
        → (r : ℤ) × (w' : World) × (copy_windows io fuel input output start sz total w ≡ ok (r, w'))
          × Balanced w w'
    unfolding copy_windows
    copy_windows-Balanced input output zero start sz total w more fits = absurd (omega arith)
    copy_windows-Balanced input output (suc fuel) start sz total w more fits =
        elim (Bool-cases (ltb total sz)) [
          | inr done ↦ (pos total, w, rw (done, copy_windows), λ q. refl)
          | inl below ↦
              let lt = ltb→lt total sz below in
              let n = min window_size (sz - total) in
              let kept = copy_window-Balanced input output (start + total) n w in
              elim (WindowEnd-cases (copy_window io input output (start + total) n w)) [
                | inl (w1, e) ↦ (
                  minus_one,
                  w1,
                  rw (below, copy_windows) (rw (e, copy_windows)),
                  λ q. ap (λ r. held q (end_world r)) (sym e) ∙ kept q,
                )
                | inr (w1, e) ↦
                    let (r, w2, e2, kept2) =
                      copy_windows-Balanced input output fuel start sz (total + n) w1 (omega arith)
                        (omega arith) in
                    (
                      r,
                      w2,
                      rw (below, copy_windows) (rw (e, copy_windows) e2),
                      λ q. kept2 q ∙ ap (λ r. held q (end_world r)) (sym e) ∙ kept q,
                    )
              ]
        ]

    -- Where no allocation fails, `submit_read_write` returns, whatever the transfers and the size
    -- of the input give, and has freed every block that it allocated, each once.
    pub submit_read_write-Balanced :
        (input output : Fd) (start : ℕ) (w : World)
        → (r : ℤ) × (w' : World) × (submit_read_write io input output start w ≡ ok (r, w'))
          × Balanced w w'
    unfolding submit_read_write
    submit_read_write-Balanced input output start w =
        let size = get_file_size (fstat input w) (blkgetsize64 input w) in
        elim (Bool-cases (is_negative size || (pos_part size == 0))) [
          | inl e ↦ (pos 0, w, rw (e, submit_read_write), λ q. refl)
          | inr e ↦
              let (r, w', done, kept) =
                copy_windows-Balanced input output (suc (pos_part size)) start (pos_part size) 0 w
                  (omega arith) (omega arith) in
              (r, w', rw (e, submit_read_write) done, kept)
        ]

  module _ (p : ℕ) (w w1 : World) (first : posix_memalign 4096 chunk_size w ≡ some (p, w1))
      (second : posix_memalign 4096 chunk_size w1 ≡ none) where
    allocate_fails : (blocks i window : ℕ) → allocate io (suc (suc blocks)) i window w ≡ (none, w1)
    unfolding allocate
    allocate_fails blocks i window = rw (first, allocate) (rw (second, allocate) refl)

    copy_window_fails :
        (input output : Fd) (off window : ℕ)
        → chunk_size < window
        → copy_window io input output off window w ≡ failed w1
    unfolding copy_window transfer_blocks
    copy_window_fails input output off window big =
        let blocks = (window + chunk_size - 1) / chunk_size in
        let two : blocks ≡ suc (suc (blocks - 2)) = omega arith in
        ap (λ k. transfer_blocks io input output off (allocate io k 0 window w)) two
        ∙ ap (transfer_blocks io input output off) (allocate_fails (blocks - 2) 0 window)

  -- Where the first allocation for a file of more than one block succeeds and the next one fails,
  -- `submit_read_write` returns -1 and leaves the first block allocated.
  pub submit_read_write_leaks :
      (input output : Fd) (start n p : ℕ) (w w1 : World)
      → get_file_size (fstat input w) (blkgetsize64 input w) ≡ pos n
      → chunk_size < n
      → posix_memalign 4096 chunk_size w ≡ some (p, w1)
      → posix_memalign 4096 chunk_size w1 ≡ none
      → (submit_read_write io input output start w ≡ ok (minus_one, w1))
        × (held p w1 ≡ held p w + 1)
  unfolding submit_read_write copy_windows
  submit_read_write_leaks input output start n p w w1 size big first second = (
    rw (size, submit_read_write)
        (rw (not_empty n (omega arith), submit_read_write)
          (rw (lt→ltb 0 n (omega arith), copy_windows)
            (rw (
              copy_window_fails p w w1 first second input output (start + 0)
                  (min window_size (n - 0)) (omega arith),
              copy_windows,
            )))),
    ground (arith, alloc_holds w w1 p p first),
  )
