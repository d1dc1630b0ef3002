-- ===== src/SenderPipe/Ends.antt =====
-- The read loop of `read_file_request` from its start to its end.
use independent_study.Base.{
  ℕ, ◌+◌, ◌*◌, ◌≤◌, ◌<◌, ◌≡◌, refl, ap, sym, subst, ◌∙◌, List, [], ◌∷◌, ◌++◌, length, map, some, ok,
  fail, undefined, negsuc, append-nil, arith,
}
use independent_study.Liburing.{Fd, Wait, failed, got, Liburing}
use independent_study.Liburing.Queue.{sent}
use independent_study.SenderPipe.{q_depth, block, Reading, read_loop}
use independent_study.SenderPipe.Reads.{reads, reads-append, all_blocks, At}
use independent_study.SenderPipe.Loop.{
  complete, bytes_of, Progress, progress_lem, run-stops, run-error, run-failed, ask, busy,
  collected-order, waits_for,
}

module _ (u : Liburing ℕ) where
  open u use {
    Ring, depth, queued, batches, queue_init, init_depth, init_queued, init_batches, submit,
  }

  abbrev pub start : Ring → Reading u
  start r = record { ring = r; offset = 0; idx = 0; total_read = 0 }

  module _ (fd : Fd) (buffer : ℕ → ℕ) (blocks : ℕ) where
    At-start : (r : Ring) → queue_init q_depth ≡ some r → At fd buffer u blocks 0 0 (start r)
    At-start r e = record {
      at_offset = refl;
      at_idx = refl;
      in_file = omega arith;
      in_depth = omega arith;
      behind = omega arith;
      next_buffer = λ more room. refl;
      ring_depth = init_depth 2 r e;
    }

    sent-start : (r : Ring) → queue_init q_depth ≡ some r → sent u r ≡ []
    sent-start r e = rw (init_batches q_depth r e, init_queued q_depth r e)

    progress :
        (r : Ring) (cs : List (ℕ × ℕ))
        → queue_init q_depth ≡ some r
        → length cs ≤ blocks
        → Progress fd buffer u blocks 0 0 cs (start r)
    progress r cs e fits =
        progress_lem fd buffer u blocks cs 0 0 (start r) (At-start r e) (init_queued q_depth r e)
          (omega arith)

    -- Where the ring is set up, every read succeeds, and as many complete as the file has blocks,
    -- in whatever order, the loop ends; the sum of the bytes is right, and one read per block has
    -- been asked for, in order, of which the first three have a buffer each and all others share
    -- the fourth.
    pub read_loop_lem :
        (r : Ring) (cs : List (ℕ × ℕ))
        → queue_init q_depth ≡ some r
        → length cs ≡ blocks
        → (s : Reading u) × (read_loop u fd
              (all_blocks fd buffer)
              (blocks * block)
              (map complete cs)
              (start r)
            ≡ ok s)
          × (s.total_read ≡ bytes_of cs)
          × (sent u s.ring ≡ reads fd buffer 0 blocks)
    read_loop_lem r cs e all =
        let p = progress r cs e (omega arith) in
        let asked_all : p.asked ≡ blocks = omega (arith, p.outstanding, p.here.in_file) in
        let idle : p.left ≡ 0 = omega (arith, p.outstanding, asked_all) in
        let done : 0 + p.asked ≡ blocks = omega (arith, asked_all) in
        let over =
          subst (λ k. At fd buffer u blocks k 0 p.state) done
            (subst (λ i. At fd buffer u blocks (0 + p.asked) i p.state) idle p.here) in
        (
          p.state,
          ap (λ ws. read_loop u fd (all_blocks fd buffer) (blocks * block) ws (start r))
                (sym (append-nil (map complete cs)))
              ∙ p.result []
              ∙ run-stops fd buffer u blocks p.state [] over,
          omega (arith, p.total),
          p.order
              ∙ ap (λ l. l ++ reads fd buffer 0 p.asked) (sent-start r e)
              ∙ ap (reads fd buffer 0) asked_all,
        )

    -- Where the ring is set up, fewer reads than the file has blocks have succeeded and the next
    -- one fails, the loop ends at once, whatever is still to come, with the bytes read so far; of
    -- the k blocks asked for by then, all but those that completed are outstanding or failed, and
    -- `idx` counts these.
    pub read_loop_error :
        (r : Ring) (cs : List (ℕ × ℕ)) (i n : ℕ) (ws : List (Wait ℕ))
        → queue_init q_depth ≡ some r
        → length cs < blocks
        → (s : Reading u) × (k : ℕ) × (read_loop u fd
              (all_blocks fd buffer)
              (blocks * block)
              (map complete cs ++ got (record { user_data = i; res = negsuc n }) ∷ ws)
              (start r)
            ≡ ok s)
          × (s.total_read ≡ bytes_of cs)
          × (sent u s.ring ≡ reads fd buffer 0 k)
          × (k ≡ length cs + s.idx)
          × (0 < s.idx)
    read_loop_error r cs i n ws e fewer =
        let p = progress r cs e (omega arith) in
        let k = 0 + p.asked in
        let more = busy fd buffer u blocks k p.left (omega (arith, p.outstanding)) p.here.in_file in
        let f = ask fd buffer u blocks k p.left p.state p.here p.empty in
        (
          record f.state { ring = submit f.state.ring },
          p.asked + f.asked,
          p.result (got (record { user_data = i; res = negsuc n }) ∷ ws)
              ∙ run-error fd buffer u blocks k p.left p.state i n ws f p.here more,
          omega (arith, p.total, f.same_total),
          collected-order fd buffer u blocks k p.left p.state 0 f
              ∙ ap (λ l. l ++ reads fd buffer k f.asked) p.order
              ∙ ap (λ l. (l ++ reads fd buffer 0 p.asked) ++ reads fd buffer k f.asked)
                  (sent-start r e)
              ∙ reads-append fd buffer 0 p.asked f.asked,
          omega (arith, p.outstanding, f.here.at_idx),
          waits_for fd buffer u blocks k p.left p.state f more,
        )

    -- Where the ring is set up, fewer reads than the file has blocks have succeeded and the next
    -- wait fails, the loop reads through a pointer that was never set.
    pub read_loop_failed :
        (r : Ring) (cs : List (ℕ × ℕ)) (ws : List (Wait ℕ))
        → queue_init q_depth ≡ some r
        → length cs < blocks
        → read_loop u fd
            (all_blocks fd buffer)
            (blocks * block)
            (map complete cs ++ failed ∷ ws)
            (start r)
          ≡ fail undefined
    read_loop_failed r cs ws e fewer =
        let p = progress r cs e (omega arith) in
        let k = 0 + p.asked in
        let more = busy fd buffer u blocks k p.left (omega (arith, p.outstanding)) p.here.in_file in
        p.result (failed ∷ ws)
        ∙ run-failed fd buffer u blocks k p.left p.state ws
            (ask fd buffer u blocks k p.left p.state p.here p.empty) p.here more
