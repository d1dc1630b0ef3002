-- ===== src/ReadvTree/Copy.antt =====
-- `submit_read_write` where nothing fails: the whole file is copied.
use independent_study.Base.{
  ◌==◌, ==_iff, length-eq-zero, ℕ, zero, suc, ◌+◌, ◌-◌, ◌≤◌, ◌<◌, ◌≡◌, ◌≢◌, refl, ap, ap₂, sym,
  subst, ◌∙◌, min, ltb, ltb→lt, ltb→le, Bool-cases, inl, inr, length-append, List, ◌++◌, length,
  take, drop, length-take, ok, pos, arith,
}
use independent_study.Base.Slices.{take_all, write_at, write_at_next}
use independent_study.Liburing.{Fd}
use independent_study.IoHandle.FileSize.{get_file_size}
use independent_study.FileIo.{FileIo, Reliable}
use independent_study.ReadvTree.Window.{Copied, copy_window_lem}
use independent_study.ReadvTree.{chunk_size, window_size, copy_windows, submit_read_write}

-- What a copy leaves in the output: the source, and behind it what reached further before.
abbrev pub overwritten : List ℕ → List ℕ → List ℕ
overwritten source old = source ++ drop (length source) old

module _ (io : FileIo) (rel : Reliable io chunk_size) where
  open io use {World, fstat, blkgetsize64}
  open rel use {content, Usable, Writable, Ready, fstat_size}

  -- The loop, from where `total` bytes have been copied.
  module _ (input output : Fd) (usable : Usable input) (writable : Writable output)
      (apart : input ≢ output) (source old : List ℕ) where
    record Halfway (total : ℕ) (w0 w : World) : Type 0 where
      reads : content input w ≡ source
      writes : content output w ≡ take total source ++ drop total old
      others : (fd : Fd) → Usable fd → fd ≢ output → content fd w ≡ content fd w0
      ready : Ready w

    next_window :
        (total n : ℕ) (w0 w w' : World)
        → total + n ≤ length source
        → Halfway total w0 w
        → Copied io rel input output (0 + total) n w w'
        → Halfway (total + n) w0 w'
    next_window total n w0 w w' fits v c = record {
      reads = c.others input usable apart ∙ v.reads;
      writes =
          c.written
          ∙ ap₂ (λ k xs. write_at k (take n (drop k xs)) (content output w)) (omega arith) v.reads
          ∙ ap (write_at total (take n (drop total source))) v.writes
          ∙ write_at_next total n source old fits;
      others = λ fd u ne. c.others fd u ne ∙ v.others fd u ne;
      ready = c.ready;
    }

    copy_windows_lem :
        (fuel total : ℕ) (w0 w : World)
        → length source < fuel + total
        → total ≤ length source
        → Halfway total w0 w
        → (w' : World) × (copy_windows io fuel input output 0 (length source) total w
            ≡ ok (pos (length source), w'))
          × Halfway (length source) w0 w'
    unfolding copy_windows
    copy_windows_lem zero total w0 w more fits v = absurd (omega arith)
    copy_windows_lem (suc fuel) total w0 w more fits v =
        elim (Bool-cases (ltb total (length source))) [
          | inr done ↦
              let end : total ≡ length source = omega (arith, ltb→le total (length source) done) in
              (
                w,
                rw (done, copy_windows) (ap (λ n. ok (pos n, w)) end),
                subst (λ n. Halfway n w0 w) end v,
              )
          | inl below ↦
              let lt = ltb→lt total (length source) below in
              let n = min window_size (length source - total) in
              let (w1, e1, c) =
                copy_window_lem io rel input output (0 + total) n w usable writable v.ready
                  (omega (arith, ap length v.reads))
                  (omega (
                    arith,
                    ap length v.writes,
                    length-append (take total source) (drop total old),
                    length-take total source,
                  )) in
              let (w2, e2, v2) =
                copy_windows_lem fuel (total + n) w0 w1 (omega arith) (omega arith)
                  (next_window total n w0 w w1 (omega arith) v c) in
              (w2, rw (below, copy_windows) (rw e1 e2), v2)
        ]

  -- Where nothing fails and no transfer is short, `submit_read_write` between two open files, the
  -- second one for writing, returns the size of the first one, the second one holds its bytes and
  -- what it held behind them before, and no other open file changes.
  pub submit_read_write_lem :
      (input output : Fd) (w : World)
      → Usable input
      → Writable output
      → Ready w
      → input ≢ output
      → (w' : World) × (submit_read_write io input output 0 w
          ≡ ok (pos (length (content input w)), w'))
        × (content output w' ≡ overwritten (content input w) (content output w))
        × ((fd : Fd) → Usable fd → fd ≢ output → content fd w' ≡ content fd w)
        × Ready w'
  unfolding submit_read_write get_file_size
  submit_read_write_lem input output w usable writable ready apart =
      let source = content input w in
      elim (Bool-cases (length source == 0)) [
        | inl e ↦
            let zero_length = (==_iff (length source) 0).0 e in
            let empty = length-eq-zero source zero_length in
            (
              w,
              rw (fstat_size input w usable ready, submit_read_write, get_file_size)
                  (rw e (ap (λ n. ok (pos n, w)) (sym zero_length))),
              ap (λ xs. overwritten xs (content output w)) (sym empty),
              λ fd u ne. refl,
              ready,
            )
        | inr e ↦
            let (w', done, v) =
              copy_windows_lem input output usable writable apart source (content output w)
                (suc (length source)) 0 w w (omega arith) (omega arith)
                (record { reads = refl; writes = refl; others = λ fd u ne. refl; ready = ready }) in
            (
              w',
              rw (fstat_size input w usable ready, submit_read_write, get_file_size) (rw e done),
              v.writes
                  ∙ ap (λ xs. xs ++ drop (length source) (content output w))
                      (take_all (length source) source (omega arith)),
              v.others,
              v.ready,
            )
      ]
