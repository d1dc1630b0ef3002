-- ===== src/Tee/Queue.antt =====
-- The requests for one chunk: queued as a whole where there is room, and a null pointer where the
-- queue has too few entries.
use independent_study.Base.{
  ℕ, ◌+◌, ◌*◌, ◌≤◌, ◌≡◌, ap, ◌∙◌, List, [], ◌∷◌, length, ok, fail, undefined, arith,
}
use independent_study.Liburing.{Liburing}
use independent_study.Liburing.Queue.{Queued, Queued-trans}
use independent_study.Liburing.Push.{Pushed-room, push_room, push_full, push_or_null}
use independent_study.Tee.{Output, Source, tee_branch, drain_branch, drain_source, queue_branches}
use independent_study.Tee.Plan.{branches}

module _ (u : Liburing ℕ) where
  open u use {
    Ring, depth, queued, batches, submit, queue_init, get_full, init_depth, init_queued,
    init_batches, submit_queued, submit_batches, submit_depth,
  }

  pub record Branched (r : Ring) (s : Source) (outs : List Output) (off len n : ℕ) : Type 0 where
    pub ring : Ring
    pub result :
        queue_branches u r s outs off len n ≡ ok (ring, n + length (branches s outs off len))
    pub all : Queued u r ring (branches s outs off len)

  pub queue_branches_room :
      (r : Ring) (s : Source) (o : Output) (os : List Output) (off len n : ℕ)
      → length (queued r) + (1 + 2 * length os) ≤ depth r
      → Branched r s (o ∷ os) off len n
  unfolding queue_branches
  queue_branches_room r s o [] off len n h =
      let p = push_room u r (drain_source s o off len) (omega arith) in
      record { ring = p.ring; result = rw p.result; all = p.entry }
  queue_branches_room r s o (o' ∷ os) off len n h =
      let p = push_room u r (tee_branch s o len) (omega arith) in
      let hp = Pushed-room u r (tee_branch s o len) p (2 + 2 * length os) (omega arith) in
      let p' = push_room u p.ring (drain_branch o off len) (omega (arith, hp)) in
      let hp' =
        Pushed-room u p.ring (drain_branch o off len) p' (1 + 2 * length os) (omega (arith, hp)) in
      let rest = queue_branches_room p'.ring s o' os off len (n + 2) hp' in
      record {
        ring = rest.ring;
        result =
            rw (p.result, queue_branches)
              (rw p'.result (rest.result ∙ ap (λ (k : ℕ). ok (rest.ring, k)) (omega arith)));
        all = Queued-trans u r p.ring rest.ring (tee_branch s o len ∷ []) _ p.entry (
            Queued-trans u p.ring p'.ring rest.ring (drain_branch o off len ∷ []) _ p'.entry
              rest.all);
      }

  -- With too few free entries for all outputs, the loop writes through a null pointer.
  pub queue_branches_overflow :
      (r : Ring) (s : Source) (o : Output) (os : List Output) (off len n : ℕ)
      → depth r ≤ length (queued r) + 2 * length os
      → queue_branches u r s (o ∷ os) off len n ≡ fail undefined
  unfolding queue_branches
  queue_branches_overflow r s o [] off len n h =
      rw (push_full u r (drain_source s o off len) (omega arith))
  queue_branches_overflow r s o (o' ∷ os) off len n h =
      push_or_null u r (tee_branch s o len) _ (1 + 2 * length os) (omega arith) λ t ht.
        push_or_null u t (drain_branch o off len) _ (2 * length os) (omega arith)
          λ t' ht'. queue_branches_overflow t' s o' os off len (n + 2) ht'
