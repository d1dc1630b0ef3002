-- ===== src/Splice/Complete.antt =====
-- Where the number of outputs divides 256, nothing is left out.
use native.Mathlib.Decide.{dec_lt}
use independent_study.Base.{
  length-eq-zero, subst, concat, append-nil, ℕ, zero, suc, ◌+◌, ◌-◌, ◌*◌, ◌≤◌, ◌<◌, ◌≡◌, refl, ap,
  sym, ◌∙◌, List, [], ◌++◌, length, drop, take, length-drop, false, ◌||◌, leb, lt→ltb, le→ltb,
  Bool-cases, inl, inr, ok, some, map, min, pos, arith, append_assoc, mul_mono,
}
use independent_study.Liburing.{Fd, Sqe, Cqe, got, Liburing}
use independent_study.Liburing.Queue.{sent, length-Queued, sent-Queued, sent-submit}
use independent_study.Splice.{
  Output, splice_chunk_size, queue_depth, reap, Progress, round, rounds, broadcast,
  perform_splice_broadcast,
}
use independent_study.Splice.Plan.{pairs, length-pairs, chunks_from, chunk_count, plan}
use independent_study.Splice.Queue.{AllQueued, queue_outputs_room}
use independent_study.Splice.Reap.{tally, tally-take-drop, reap_got}

-- A queue that holds i rounds of w entries out of m has room for one more.
next_fits : (i m w : ℕ) → i * w < m * w → suc i * w ≤ m * w
next_fits i m w h = elim (dec_lt i m) [
  | yes lt ↦ mul_mono (suc i) m w lt
  | no ge ↦ absurd (omega (arith, mul_mono m i w (omega arith)))
]

room : (i n m : ℕ) → n * m ≡ 256 → i * (2 * n) < 512 → i * (2 * n) + 2 * n ≤ 512
room i n m h lt =
    let full : m * (2 * n) ≡ 512 = omega (arith, h) in
    omega (arith, next_fits i m (2 * n) (omega (arith, full)), full)

round_ends : (a b : ℕ) (c d : ℕ) → leb a b || leb c d ≡ false → (b < a) × (d < c)
round_ends a b c d h = ground arith

module _ (u : Liburing ℕ) (source : Fd) (os : List Output) (sz verified : ℕ)
    (all : List (Sqe ℕ)) where
  open u use {Ring, depth, queued, submit, submit_queued, submit_depth}

  -- Before the k-th chunk, with j chunks to go.
  record Inv (k j : ℕ) (p : Progress u) : Type 0 where
    at : p.total_processed ≡ min (k * splice_chunk_size) sz
    chunks : k + j ≡ chunk_count sz
    size : depth p.ring ≡ 512
    counted : p.expected_cqes ≡ length (queued p.ring)
    below : p.expected_cqes < 512
    held : ℕ
    multiple : p.expected_cqes ≡ held * (2 * length os)
    last : j ≡ 0 → p.expected_cqes ≡ 0
    cqes : List (Cqe ℕ)
    arriving : p.waits ≡ map got cqes
    enough : length cqes ≡ p.expected_cqes + j * (2 * length os)
    sum : tally p.verified cqes ≡ verified
    asked : sent u p.ring ++ chunks_from source os sz k j ≡ all

  module _ (m : ℕ) (divides : length os * m ≡ 256) where
    abbrev step_len : Progress u → ℕ
    step_len p = min splice_chunk_size (sz - p.total_processed)

    abbrev Room : Progress u → Type 0
    Room p = AllQueued u p.ring source os p.total_processed (step_len p) p.expected_cqes

    -- The state behind a round that only queues, and behind one that also submits and reaps.
    abbrev waiting : (p : Progress u) → Room p → Progress u
    waiting p q = record p {
      ring = q.ring;
      total_processed = p.total_processed + step_len p;
      expected_cqes = p.expected_cqes + 2 * length os;
    }

    abbrev flushed : (p : Progress u) → Room p → List (Cqe ℕ) → Progress u
    flushed p q cs = record {
      ring = submit q.ring;
      total_processed = p.total_processed + step_len p;
      verified = tally p.verified (take (p.expected_cqes + 2 * length os) cs);
      expected_cqes = 0;
      waits = map got (drop (p.expected_cqes + 2 * length os) cs);
    }

    module _ (k j : ℕ) (p : Progress u) (v : Inv k (suc j) p) where
      all_queued : Room p
      all_queued = queue_outputs_room u p.ring source os _ _ p.expected_cqes (
          omega (
            arith,
            room v.held (length os) m divides (omega (arith, v.multiple, v.below)),
            v.multiple,
            v.counted,
            v.size,
          ))

      at_exact : p.total_processed ≡ k * splice_chunk_size
      at_exact = omega (arith, v.at, v.chunks)

      at_next : p.total_processed + step_len p ≡ min ((k + 1) * splice_chunk_size) sz
      at_next = omega (arith, v.at)

      all_arrived :
          reap (p.expected_cqes + 2 * length os) p.verified p.waits
          ≡ ok (
            0,
            tally p.verified (take (p.expected_cqes + 2 * length os) v.cqes),
            map got (drop (p.expected_cqes + 2 * length os) v.cqes),
          )
      all_arrived =
          ap (reap (p.expected_cqes + 2 * length os) p.verified) v.arriving
          ∙ reap_got (p.expected_cqes + 2 * length os) p.verified v.cqes (omega (arith, v.enough))

      asked_next : sent u all_queued.ring ++ chunks_from source os sz (k + 1) j ≡ all
      unfolding chunks_from
      asked_next =
          ap (λ ss. ss ++ chunks_from source os sz (k + 1) j)
            (sent-Queued u p.ring all_queued.ring _ all_queued.all)
          ∙ append_assoc (sent u p.ring) _ (chunks_from source os sz (k + 1) j)
          ∙ ap
              (λ t.
                sent u p.ring
                ++ (pairs source os t (min splice_chunk_size (sz - t))
                    ++ chunks_from source os sz (k + 1) j))
              at_exact
          ∙ v.asked

      count_next : length (queued all_queued.ring) ≡ p.expected_cqes + 2 * length os
      count_next = omega (
        arith,
        length-Queued u p.ring all_queued.ring _ all_queued.all,
        length-pairs source os p.total_processed (step_len p),
        v.counted,
      )

      waiting-Inv :
          p.expected_cqes + 2 * length os < 512
          → p.total_processed + step_len p < sz
          → Inv (k + 1) j (waiting p all_queued)
      waiting-Inv few more = record {
        at = at_next;
        chunks = omega (arith, v.chunks);
        size = all_queued.all.same_depth ∙ v.size;
        counted = sym count_next;
        below = few;
        held = suc v.held;
        multiple = omega (arith, v.multiple);
        last = λ e. absurd (omega (arith, v.chunks, at_next));
        cqes = v.cqes;
        arriving = v.arriving;
        enough = omega (arith, v.enough);
        sum = v.sum;
        asked = asked_next;
      }

      flushed-Inv : Inv (k + 1) j (flushed p all_queued v.cqes)
      flushed-Inv = record {
        at = at_next;
        chunks = omega (arith, v.chunks);
        size = submit_depth all_queued.ring ∙ all_queued.all.same_depth ∙ v.size;
        counted = sym (ap length (submit_queued all_queued.ring));
        below = omega arith;
        held = 0;
        multiple = omega arith;
        last = λ e. refl;
        cqes = drop (p.expected_cqes + 2 * length os) v.cqes;
        arriving = refl;
        enough = omega (arith, length-drop (p.expected_cqes + 2 * length os) v.cqes, v.enough);
        sum = tally-take-drop (p.expected_cqes + 2 * length os) p.verified v.cqes ∙ v.sum;
        asked =
            ap (λ ss. ss ++ chunks_from source os sz (k + 1) j) (sent-submit u all_queued.ring)
            ∙ asked_next;
      }

      round_lem : (p' : Progress u) × (round u source os sz p ≡ ok p') × Inv (k + 1) j p'
      unfolding round
      round_lem =
          elim (Bool-cases (
            leb 512 (p.expected_cqes + 2 * length os) || leb sz (p.total_processed + step_len p))) [
              | inl e ↦ (
                flushed p all_queued v.cqes,
                rw (all_queued.result, round) (rw e (rw all_arrived)),
                flushed-Inv,
              )
              | inr e ↦ (
                waiting p all_queued,
                rw (all_queued.result, round) (rw e),
                waiting-Inv (round_ends _ _ _ _ e).0 (round_ends _ _ _ _ e).1,
              )
            ]

    rounds_lem :
        (fuel k j : ℕ) (p : Progress u)
        → j < fuel
        → Inv k j p
        → (p' : Progress u) × (rounds u fuel source os sz p ≡ ok p') × Inv (chunk_count sz) 0 p'
    unfolding rounds
    rounds_lem zero k j p h v = absurd (omega arith)
    rounds_lem (suc fuel) k zero p h v = (
      p,
      rw (rounds, le→ltb p.total_processed sz (omega (arith, v.at, v.chunks))),
      subst (λ n. Inv n 0 p) (omega (arith, v.chunks)) v,
    )
    rounds_lem (suc fuel) k (suc j) p h v =
        let (p', e, v') = round_lem k j p v in
        let (p'', e', v'') = rounds_lem fuel (k + 1) j p' (omega arith) v' in
        (
          p'',
          rw (rounds, lt→ltb p.total_processed sz (omega (arith, v.at, v.chunks))) (rw e e'),
          v'',
        )

module _ (u : Liburing ℕ) (source : Fd) (os : List Output) (sz m : ℕ) where
  open u use {Ring, queue_init, queued, batches, init_depth, init_queued, init_batches}

  start-Inv :
      (r : Ring) (cs : List (Cqe ℕ))
      → queue_init queue_depth ≡ some r
      → length cs ≡ chunk_count sz * (2 * length os)
      → Inv u source os sz (tally 0 cs) (plan source os sz) 0 (chunk_count sz) (record {
        ring = r;
        total_processed = 0;
        verified = 0;
        expected_cqes = 0;
        waits = map got cs;
      })
  start-Inv r cs e h = record {
    at = omega arith;
    chunks = omega arith;
    size = init_depth 9 r e;
    counted = sym (ap length (init_queued queue_depth r e));
    below = omega arith;
    held = 0;
    multiple = omega arith;
    last = λ _. refl;
    cqes = cs;
    arriving = refl;
    enough = omega (arith, h);
    sum = refl;
    asked =
        ap (λ bs. (concat bs ++ queued r) ++ plan source os sz) (init_batches queue_depth r e)
        ∙ ap (λ q. q ++ plan source os sz) (init_queued queue_depth r e);
  }

  -- Let the number of outputs divide 256, and let every request complete, in any order and with
  -- any result. Then the broadcast ends, has submitted for each chunk of the file and each output
  -- the two requests of the plan, in its order and no other, has none left in the queue, and
  -- returns the sum that its completions verify.
  pub broadcast_complete :
      (r : Ring) (cs : List (Cqe ℕ))
      → length os * m ≡ 256
      → queue_init queue_depth ≡ some r
      → length cs ≡ chunk_count sz * (2 * length os)
      → (p : Progress u) × (broadcast u r (pos sz) source os (map got cs) ≡ ok p)
        × (concat (batches p.ring) ≡ plan source os sz)
        × (queued p.ring ≡ [])
        × (perform_splice_broadcast u (pos sz) source os (map got cs) ≡ ok (tally 0 cs))
  unfolding broadcast perform_splice_broadcast chunks_from tally
  broadcast_complete r cs divides e h =
      let (p, done, v) =
        rounds_lem u source os sz (tally 0 cs) (plan source os sz) m divides (suc sz) 0
          (chunk_count sz) _ (omega arith) (start-Inv r cs e h) in
      let none_left = length-eq-zero (queued p.ring) (omega (arith, v.counted, v.last refl)) in
      let none_due = length-eq-zero v.cqes (omega (arith, v.enough, v.last refl)) in
      (
        p,
        done,
        sym (append-nil (concat (batches p.ring)))
            ∙ ap (λ q. concat (batches p.ring) ++ q) (sym none_left)
            ∙ sym (append-nil (sent u p.ring))
            ∙ v.asked,
        none_left,
        rw (e, perform_splice_broadcast)
            (rw done (ap ok (ap (tally p.verified) (sym none_due) ∙ v.sum))),
      )
