-- ===== src/Tee/Complete.antt =====
-- For up to 512 outputs each chunk goes out as one whole chain, and a file whose chains all
-- succeed is counted once for each output.
use independent_study.Base.{
  ℕ, zero, suc, ◌+◌, ◌-◌, ◌*◌, ◌%◌, ◌<◌, ◌≡◌, refl, ap, ◌∙◌, sym, subst, min, lt→ltb, le→ltb, List,
  [], ◌∷◌, ◌++◌, append_assoc, append-nil, length, ok, some, pos, word_mod, arith,
}
use independent_study.Liburing.{Sqe, Cqe, Liburing}
use independent_study.Liburing.Queue.{Queued, Queued-trans}
use independent_study.Liburing.Push.{Pushed, Pushed-room, push_room}
use independent_study.Tee.Queue.{Branched, queue_branches_room}
use independent_study.Tee.{
  Output, Source, chunk_size, queue_depth, fill_source, count_cqes, wait_replies, Progress, round,
  rounds, broadcast, perform_tee_broadcast,
}
use independent_study.Tee.Plan.{
  branches, chain, chains_from, chunk_count, Succeeds, AllSucceed, Succeeds-moved, Succeeds-length,
}

moved_next :
    (n x len y : ℕ) → y ≡ x + len → (n * x % word_mod + n * len) % word_mod ≡ n * y % word_mod
moved_next n x len y e = rw e (omega arith)

-- The reply that the next wait takes.
AllSucceed-uncons :
    (ss : List (Sqe ℕ)) (sss : List (List (Sqe ℕ))) (css : List (List (Cqe ℕ)))
    → AllSucceed (ss ∷ sss) css
    → (cs : List (Cqe ℕ)) × (rest : List (List (Cqe ℕ))) × (css ≡ cs ∷ rest)
      × Succeeds ss cs
      × AllSucceed sss rest
AllSucceed-uncons ss sss [] h = absurd h
AllSucceed-uncons ss sss (cs ∷ css) h = (cs, css, refl, h.0, h.1)

module _ (u : Liburing ℕ) (s : Source) (o : Output) (os : List Output) (few : length os < 512)
    (sz : ℕ) (all : List (List (Sqe ℕ))) where
  open u use {Ring, depth, queued, batches, submit, submit_queued, submit_batches, submit_depth}

  abbrev outs : List Output
  outs = o ∷ os

  -- Before the k-th chunk, with j chunks to go.
  record Inv (k j : ℕ) (p : Progress u) : Type 0 where
    at : p.total_processed ≡ min (k * chunk_size) sz
    chunks : k + j ≡ chunk_count sz
    size : depth p.ring ≡ 1024
    empty : queued p.ring ≡ []
    succeeding : AllSucceed (chains_from s outs sz k j) p.replies
    moved : p.total_data_moved ≡ length outs * min (k * chunk_size) sz % word_mod
    asked : batches p.ring ++ chains_from s outs sz k j ≡ all

  module _ (k j : ℕ) (p : Progress u) (v : Inv k (suc j) p) where
    at_exact : p.total_processed ≡ k * chunk_size
    at_exact = omega (arith, v.at, v.chunks)

    abbrev off : ℕ
    off = p.total_processed

    abbrev len : ℕ
    len = min chunk_size (sz - off)

    no_more : length (queued p.ring) ≡ 0
    no_more = ap length v.empty

    first : Pushed u p.ring (fill_source s off len)
    first = push_room u p.ring _ (omega (arith, no_more, v.size))

    others : Branched u first.ring s outs off len 1
    others =
        queue_branches_room u first.ring s o os off len 1
          (Pushed-room u p.ring _ first (1 + 2 * length os) (omega (arith, no_more, v.size, few)))

    chain_here : (fill_source s off len ∷ branches s outs off len) ≡ chain s outs sz k
    chain_here =
        ap
          (λ t.
            fill_source s t (min chunk_size (sz - t)) ∷ branches s outs t (min chunk_size (sz - t)))
          at_exact

    whole : Queued u p.ring others.ring (chain s outs sz k)
    whole = subst (Queued u p.ring others.ring) chain_here (
        Queued-trans u p.ring first.ring others.ring _ (branches s outs off len) first.entry
          others.all)

    taken :
        (cs : List (Cqe ℕ)) × (rest : List (List (Cqe ℕ))) × (p.replies ≡ cs ∷ rest)
        × Succeeds (chain s outs sz k) cs
        × AllSucceed (chains_from s outs sz (k + 1) j) rest
    unfolding chains_from
    taken =
        AllSucceed-uncons (chain s outs sz k) (chains_from s outs sz (k + 1) j) p.replies
          v.succeeding

    waited : wait_replies u (1 + length (branches s outs off len)) p.replies ≡ ok (taken.0, taken.1)
    unfolding wait_replies
    waited =
        ap (wait_replies u (1 + length (branches s outs off len))) taken.2
        ∙ rw (
            le→ltb (length taken.0) (1 + length (branches s outs off len)) (
              omega
                (arith, Succeeds-length (chain s outs sz k) taken.0 taken.3, ap length chain_here)))

    abbrev next : Progress u
    next = record {
      ring = submit others.ring;
      total_processed = off + len;
      total_data_moved = count_cqes p.total_data_moved taken.0;
      replies = taken.1;
    }

    round-next : round u s outs sz p ≡ ok next
    unfolding round
    round-next = rw (first.result, round) (rw others.result (rw waited))

    at_next :
        min ((k + 1) * chunk_size) sz
        ≡ min (k * chunk_size) sz + min chunk_size (sz - k * chunk_size)
    at_next = omega arith

    next-Inv : Inv (k + 1) j next
    unfolding chains_from
    next-Inv = record {
      at = omega (arith, v.at);
      chunks = omega (arith, v.chunks);
      size = submit_depth others.ring ∙ whole.same_depth ∙ v.size;
      empty = submit_queued others.ring;
      succeeding = taken.4;
      moved =
          Succeeds-moved s outs sz k p.total_data_moved taken.0 taken.3 (omega (arith, v.moved))
          ∙ ap (λ m. (m + length outs * min chunk_size (sz - k * chunk_size)) % word_mod) v.moved
          ∙ moved_next (length outs) (min (k * chunk_size) sz)
              (min chunk_size (sz - k * chunk_size)) _ at_next;
      asked =
          ap (λ bs. bs ++ chains_from s outs sz (k + 1) j)
            (submit_batches others.ring
              ∙ ap (λ bs. bs ++ queued others.ring ∷ []) whole.same_batches
              ∙ ap (λ q. batches p.ring ++ q ∷ [])
                  (whole.more ∙ ap (λ q. q ++ chain s outs sz k) v.empty))
          ∙ append_assoc (batches p.ring) (chain s outs sz k ∷ []) (chains_from s outs sz (k + 1) j)
          ∙ v.asked;
    }

  rounds_lem :
      (fuel k j : ℕ) (p : Progress u)
      → j < fuel
      → Inv k j p
      → (p' : Progress u) × (rounds u fuel s outs sz p ≡ ok p') × Inv (chunk_count sz) 0 p'
  unfolding rounds
  rounds_lem zero k j p h v = absurd (omega arith)
  rounds_lem (suc fuel) k zero p h v = (
    p,
    rw (rounds, le→ltb p.total_processed sz (omega (arith, v.at, v.chunks))),
    subst (λ n. Inv n 0 p) (omega (arith, v.chunks)) v,
  )
  rounds_lem (suc fuel) k (suc j) p h v =
      let (p', e, v') = rounds_lem fuel (k + 1) j (next k j p v) (omega arith) (next-Inv k j p v) in
      (
        p',
        rw (rounds, lt→ltb p.total_processed sz (omega (arith, v.at, v.chunks)))
            (rw (round-next k j p v) e),
        v',
      )

abbrev pub initial : (u : Liburing ℕ) → u.Ring → List (List (Cqe ℕ)) → Progress u
initial u r replies = record {
  ring = r;
  total_processed = 0;
  total_data_moved = 0;
  replies = replies;
}

start-Inv :
    (u : Liburing ℕ) (s : Source) (o : Output) (os : List Output) (few : length os < 512) (sz : ℕ)
    (r : u.Ring) (replies : List (List (Cqe ℕ)))
    → u.queue_init queue_depth ≡ some r
    → AllSucceed (chains_from s (o ∷ os) sz 0 (chunk_count sz)) replies
    → Inv u s o os few sz
        (chains_from s (o ∷ os) sz 0 (chunk_count sz))
        0
        (chunk_count sz)
        (initial u r replies)
start-Inv u s o os few sz r replies e succeeding = record {
  at = omega arith;
  chunks = omega arith;
  size = u.init_depth 10 r e;
  empty = u.init_queued queue_depth r e;
  succeeding = succeeding;
  moved = sym (ap (λ n. length (o ∷ os) * n % word_mod) none_yet ∙ omega arith);
  asked =
      ap (λ bs. bs ++ chains_from s (o ∷ os) sz 0 (chunk_count sz))
        (u.init_batches queue_depth r e);
}
  where
    none_yet : min (0 * chunk_size) sz ≡ 0
    none_yet = omega arith

-- Let a file of `sz` bytes go to at least one and at most 512 outputs, and let all requests of
-- each chain succeed, in any order. Then the broadcast ends, has submitted exactly one batch for
-- each chunk, which is the chunk's chain for all outputs, has none left in the queue, and returns
-- the size of the file once for each output, modulo 2 ^ 64.
pub tee_complete :
    (u : Liburing ℕ) (r : u.Ring) (s : Source) (o : Output) (os : List Output) (sz : ℕ)
    (replies : List (List (Cqe ℕ)))
    → length os < 512
    → sz < word_mod
    → u.queue_init queue_depth ≡ some r
    → AllSucceed (chains_from s (o ∷ os) sz 0 (chunk_count sz)) replies
    → (p : Progress u) × (broadcast u r (pos sz) s (o ∷ os) replies ≡ ok p)
      × (u.batches p.ring ≡ chains_from s (o ∷ os) sz 0 (chunk_count sz))
      × (u.queued p.ring ≡ [])
      × (perform_tee_broadcast u (pos sz) s (o ∷ os) replies ≡ ok (length (o ∷ os) * sz % word_mod))
unfolding broadcast perform_tee_broadcast chains_from
tee_complete u r s o os sz replies few small e succeeding =
    let (p, done, v) =
      rounds_lem u s o os few sz _ (suc sz) 0 (chunk_count sz) (initial u r replies) (omega arith)
        (start-Inv u s o os few sz r replies e succeeding) in
    let run : broadcast u r (pos sz) s (o ∷ os) replies ≡ ok p =
      ap (λ n. rounds u (suc n) s (o ∷ os) n (initial u r replies)) (omega arith) ∙ done in
    (
      p,
      run,
      sym (append-nil (u.batches p.ring)) ∙ v.asked,
      v.empty,
      rw (e, perform_tee_broadcast)
          (rw run
            (ap ok (v.moved ∙ ap (λ n. length (o ∷ os) * n % word_mod) (omega (arith, v.chunks))))),
    )
