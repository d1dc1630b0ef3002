-- ===== src/Splice/Queue.antt =====
-- The loop over the outputs: with room for them all it queues one pair of requests for each.
use independent_study.Base.{ℕ, ◌+◌, ◌*◌, ◌≤◌, ◌≡◌, ap, ◌∙◌, List, [], ◌∷◌, length, true, arith}
use independent_study.Liburing.{Fd, Liburing}
use independent_study.Liburing.Queue.{Queued, Queued-refl, Queued-trans, length-Queued, get_room}
use independent_study.Splice.{Output, fill_pipe, drain_pipe, queue_pair, queue_outputs}
use independent_study.Splice.Plan.{pairs}

module _ (u : Liburing ℕ) where
  open u use {Ring, depth, queued, get_sqe, get_full}

  pub record Paired (r : Ring) (source : Fd) (o : Output) (off len : ℕ) : Type 0 where
    pub ring : Ring
    pub went_on : queue_pair u r source o off len ≡ (ring, true)
    pub both : Queued u r ring (fill_pipe source o off len ∷ drain_pipe o off len ∷ [])

  pub queue_pair_room :
      (r : Ring) (source : Fd) (o : Output) (off len : ℕ)
      → length (queued r) + 2 ≤ depth r
      → Paired r source o off len
  unfolding queue_pair
  queue_pair_room r source o off len h =
      let (fill, e, q) = get_room u r (omega arith) in
      let a = fill_pipe source o off len in
      let b = drain_pipe o off len in
      let qa = q a in
      let (fill', e', q') =
        get_room u (fill a)
          (omega (arith, length-Queued u r (fill a) (a ∷ []) qa, qa.same_depth)) in
      record {
        ring = fill' b;
        went_on = rw (e, queue_pair) (rw (e', queue_pair));
        both = Queued-trans u r (fill a) (fill' b) (a ∷ []) (b ∷ []) qa (q' b);
      }

  pub record AllQueued (r : Ring) (source : Fd) (os : List Output) (off len expected : ℕ)
      : Type 0 where
    pub ring : Ring
    pub result : queue_outputs u r source os off len expected ≡ (ring, expected + 2 * length os)
    pub all : Queued u r ring (pairs source os off len)

  pub queue_outputs_room :
      (r : Ring) (source : Fd) (os : List Output) (off len expected : ℕ)
      → length (queued r) + 2 * length os ≤ depth r
      → AllQueued r source os off len expected
  unfolding queue_outputs
  queue_outputs_room r source [] off len expected h = record {
    ring = r;
    result = ap (λ (n : ℕ). (r, n)) (omega arith);
    all = Queued-refl u r;
  }
  queue_outputs_room r source (o ∷ os) off len expected h =
      let p = queue_pair_room r source o off len (omega arith) in
      let q =
        queue_outputs_room p.ring source os off len (expected + 2)
          (omega (arith, length-Queued u r p.ring _ p.both, p.both.same_depth)) in
      record {
        ring = q.ring;
        result =
            rw (p.went_on, queue_outputs) (q.result ∙ ap (λ (n : ℕ). (q.ring, n)) (omega arith));
        all = Queued-trans u r p.ring q.ring _ (pairs source os off len) p.both q.all;
      }
