-- ===== src/Tee/Overflow.antt =====
-- What the broadcast does with more outputs than its queue has room for, and with none.
use independent_study.Base.{
  ℕ, suc, ◌-◌, ◌%◌, ◌≤◌, ◌<◌, ◌≡◌, ap, ◌∙◌, min, List, ◌∷◌, length, fail, undefined, some, pos,
  word_mod, lt→ltb, arith,
}
use independent_study.Liburing.{Cqe, Liburing}
use independent_study.Liburing.Queue.{length-Queued}
use independent_study.Tee.{
  Output, Source, chunk_size, queue_depth, fill_source, round, rounds, broadcast,
}
use independent_study.Liburing.Push.{push_room}
use independent_study.Tee.Queue.{queue_branches_overflow}
use independent_study.Tee.Complete.{initial}

module _ (u : Liburing ℕ) (s : Source) (sz : ℕ) (r : u.Ring) (replies : List (List (Cqe ℕ)))
    (e : u.queue_init queue_depth ≡ some r) where
  abbrev len : ℕ
  len = min chunk_size (sz - 0)

  empty : length (u.queued r) ≡ 0
  empty = ap length (u.init_queued queue_depth r e)

  round_overflow :
      (o : Output) (os : List Output)
      → 512 ≤ length os
      → round u s (o ∷ os) sz (initial u r replies) ≡ fail undefined
  unfolding round
  round_overflow o os many =
      let p = push_room u r (fill_source s 0 len) (omega (arith, empty, u.init_depth 10 r e)) in
      rw (p.result, round)
        (rw (
          queue_branches_overflow u p.ring s o os 0 len 1 (
            omega (
              arith,
              empty,
              u.init_depth 10 r e,
              length-Queued u r p.ring _ p.entry,
              p.entry.same_depth,
              many,
            ))))

  -- A file that is not empty, broadcast to more than 512 outputs, makes the code write through the
  -- null pointer that `io_uring_get_sqe` gives once the queue of 1024 entries is full.
  pub tee_overflow :
      (o : Output) (os : List Output)
      → 512 ≤ length os
      → 0 < sz
      → sz < word_mod
      → broadcast u r (pos sz) s (o ∷ os) replies ≡ fail undefined
  unfolding broadcast rounds
  tee_overflow o os many some_bytes small =
      let fits : sz % word_mod ≡ sz = omega arith in
      ap (λ n. rounds u (suc n) s (o ∷ os) n (initial u r replies)) fits
      ∙ rw (rounds, lt→ltb 0 sz some_bytes) (rw (round_overflow o os many))
