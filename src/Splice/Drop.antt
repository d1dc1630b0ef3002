-- ===== src/Splice/Drop.antt =====
-- A chunk whose requests do not all fit into the queue.
use independent_study.Base.{
  ℕ, ◌+◌, ◌-◌, ◌*◌, ◌≤◌, min, ◌≡◌, refl, ap, ◌∙◌, false, List, [], ◌∷◌, ◌++◌, length, map, take,
  drop, ok, arith,
}
use independent_study.Liburing.{Fd, Cqe, got, Liburing}
use independent_study.Liburing.Queue.{
  sent, Queued, Queued-refl, Queued-trans, length-Queued, sent-Queued, sent-submit,
}
use independent_study.Splice.{
  Output, splice_chunk_size, reap, Progress, queue_pair, queue_outputs, round,
}
use independent_study.Splice.Plan.{pairs}
use independent_study.Splice.Queue.{queue_pair_room}
use independent_study.Splice.Reap.{tally, reap_got}

module _ (u : Liburing ℕ) (source : Fd) where
  open u use {Ring, depth, queued, submit, submit_queued, get_sqe, get_full}

  queue_pair_full :
      (r : Ring) (o : Output) (off len : ℕ)
      → depth r ≤ length (queued r)
      → queue_pair u r source o off len ≡ (r, false)
  unfolding queue_pair
  queue_pair_full r o off len h = rw (get_full r h, queue_pair)

  record Cut (r : Ring) (os : List Output) (xs : List Output) (off len expected : ℕ) : Type 0 where
    ring : Ring
    result : queue_outputs u r source os off len expected ≡ (ring, expected + 2 * length xs)
    all : Queued u r ring (pairs source xs off len)

  -- The loop ends by its `break` once the queue is full.
  queue_outputs-Cut :
      (r : Ring) (xs : List Output) (y : Output) (ys : List Output) (off len expected : ℕ)
      → length (queued r) + 2 * length xs ≡ depth r
      → Cut r (xs ++ y ∷ ys) xs off len expected
  unfolding queue_outputs
  queue_outputs-Cut r [] y ys off len expected h = record {
    ring = r;
    result =
        rw (queue_pair_full r y off len (omega arith), queue_outputs)
          (ap (λ (n : ℕ). (r, n)) (omega arith));
    all = Queued-refl u r;
  }
  queue_outputs-Cut r (x ∷ xs) y ys off len expected h =
      let p = queue_pair_room u r source x off len (omega arith) in
      let q =
        queue_outputs-Cut p.ring xs y ys off len (expected + 2)
          (omega (arith, length-Queued u r p.ring _ p.both, p.both.same_depth)) in
      record {
        ring = q.ring;
        result =
            rw (p.went_on, queue_outputs) (q.result ∙ ap (λ (n : ℕ). (q.ring, n)) (omega arith));
        all = Queued-trans u r p.ring q.ring _ (pairs source xs off len) p.both q.all;
      }

  -- Where a queue of 512 entries has room for the requests of only the outputs `xs`, every other
  -- output gets nothing of the chunk: where the completions arrive, the round asks for the
  -- transfers to `xs` alone, and moves on to the next chunk with nothing queued and none expected.
  pub round_drops :
      (xs : List Output) (y : Output) (ys : List Output) (sz : ℕ) (p : Progress u)
      (cs : List (Cqe ℕ))
      → depth p.ring ≡ 512
      → p.expected_cqes ≡ length (queued p.ring)
      → p.expected_cqes + 2 * length xs ≡ 512
      → p.waits ≡ map got cs
      → 512 ≤ length cs
      → (p' : Progress u) × (round u source (xs ++ y ∷ ys) sz p ≡ ok p')
        × (p'.total_processed ≡ p.total_processed + min splice_chunk_size (sz - p.total_processed))
        × (sent u p'.ring
            ≡ sent u p.ring
              ++ pairs source xs p.total_processed (min splice_chunk_size (sz - p.total_processed)))
        × (queued p'.ring ≡ [])
        × (p'.expected_cqes ≡ 0)
  unfolding round
  round_drops xs y ys sz p cs size counted fits arriving enough =
      let len = min splice_chunk_size (sz - p.total_processed) in
      let q =
        queue_outputs-Cut p.ring xs y ys p.total_processed len p.expected_cqes
          (omega (arith, size, counted)) in
      let full : queue_outputs u p.ring source (xs ++ y ∷ ys) p.total_processed len p.expected_cqes
          ≡ (q.ring, 512) =
        q.result ∙ ap (λ (n : ℕ). (q.ring, n)) fits in
      let reaped : reap 512 p.verified p.waits
          ≡ ok (0, tally p.verified (take 512 cs), map got (drop 512 cs)) =
        ap (reap 512 p.verified) arriving ∙ reap_got 512 p.verified cs enough in
      (
        record {
          ring = submit q.ring;
          total_processed = p.total_processed + len;
          verified = tally p.verified (take 512 cs);
          expected_cqes = 0;
          waits = map got (drop 512 cs);
        },
        rw (full, round) (rw reaped),
        refl,
        sent-submit u q.ring ∙ sent-Queued u p.ring q.ring _ q.all,
        submit_queued q.ring,
        refl,
      )
