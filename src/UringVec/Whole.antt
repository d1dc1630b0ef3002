-- ===== src/UringVec/Whole.antt =====
-- `perform_uring_broadcast` as a whole: its total, and what becomes of the blocks.
use mathlib.Core.List.{Perm}
use independent_study.Base.{
  ℕ, ◌+◌, ◌*◌, ◌%◌, ◌≤◌, ◌<◌, ◌≡◌, ◌==◌, if◌then◌else◌, ap, sym, subst, ◌∙◌, List, [], ◌++◌, length,
  map, Option, some, ok, ok_inj, pos, is_negative, false, word_mod, arith, All,
}
use independent_study.Base.Sums.{weigh, weigh-map, weigh-Perm}
use independent_study.Liburing.{Fd, Sqe, Cqe, got, Liburing}
use independent_study.Liburing.Queue.{sent}
use independent_study.UringVec.{
  Data, block_sz, window_size, reap, submit_all, perform_uring_broadcast,
}
use independent_study.UringVec.Context.{data_pointers, pointers}
use independent_study.UringVec.Pairs.{Paired, IsWhole}
use independent_study.UringVec.Reap.{carrying, bytes_written, owned_blocks, freed, reap_all}
use independent_study.UringVec.Plan.{data_bytes, carries, windows_of, Planned, submit_all_lem}
use independent_study.UringVec.Freed.{
  count_at, data_of, data_asked, contexts_at, count_at-pointers, carrying_lem, bytes_written_good,
  count_at-owned_blocks, freed-held, expected_lem, Allocates-held,
}

pub init-IsWhole : (u : Liburing Data) (r : u.Ring) → u.queue_init 1024 ≡ some r → IsWhole u r
init-IsWhole u r e = record {
  size = u.init_depth 10 r e;
  waiting = subst Paired (sym (u.init_queued 1024 r e)) tt;
  handed = subst (All Paired) (sym (u.init_batches 1024 r e)) tt;
}

pub sent-init : (u : Liburing Data) (r : u.Ring) → u.queue_init 1024 ≡ some r → sent u r ≡ []
sent-init u r e = rw (u.init_batches 1024 r e, u.init_queued 1024 r e)

module _ {Heap : Type 0} (posix_memalign : ℕ → ℕ → Heap → Option (ℕ × Heap))
    (never_fails : (h : Heap)
      → (p : ℕ) × (h' : Heap) × (posix_memalign 4096 block_sz h ≡ some (p, h')))
    (free : ℕ → Heap → Heap) (held : ℕ → Heap → ℕ)
    (alloc_holds : (h h' : Heap) (p q : ℕ)
      → posix_memalign 4096 block_sz h ≡ some (p, h')
      → held q h' ≡ held q h + (if p == q then 1 else 0))
    (free_releases : (p : ℕ) (h : Heap) (q : ℕ)
      → 1 ≤ held p h
      → held q (free p h) + (if p == q then 1 else 0) ≡ held q h)
    (u : Liburing Data) (input : Fd) (outs : List Fd) (sz : ℕ) (some_bytes : 0 < sz)
    (fits : sz + window_size ≤ word_mod) (few : length outs * windows_of sz < word_mod) (r : u.Ring)
    (init : u.queue_init 1024 ≡ some r) (h : Heap) where
  planned : Planned posix_memalign never_fails u input sz some_bytes (omega arith) outs r h
  planned =
      submit_all_lem posix_memalign never_fails u input sz some_bytes (omega arith) outs r h
        (init-IsWhole u r init)

  -- Each request that was asked for completes once, in whatever order.
  module _ (ring : u.Ring) (h1 : Heap)
      (asked : submit_all posix_memalign u input outs (pos sz) r h ≡ ok (ring, h1))
      (cs : List (Cqe Data)) (once : Perm (data_of cs) (data_asked (sent u ring))) where
    sent_all : sent u ring ≡ planned.plan
    sent_all =
        let same : (planned.ring, planned.heap) ≡ (ring, h1) =
          ok_inj (sym planned.result ∙ asked) in
        ap (λ (x : u.Ring × Heap). sent u x.0) (sym same)
        ∙ planned.more
        ∙ ap (λ l. l ++ planned.plan) (sent-init u r init)

    once_planned : Perm (data_of cs) (data_asked planned.plan)
    once_planned = subst (λ l. Perm (data_of cs) (data_asked l)) sent_all once

    weigh_once :
        (w : Data → ℕ) → weigh w (data_of cs) ≡ weigh (λ (s : Sqe Data). w s.user_data) planned.plan
    weigh_once w =
        weigh-Perm w once_planned ∙ weigh-map w (λ (s : Sqe Data). s.user_data) planned.plan

    held_planned : (q : ℕ) → held q planned.heap ≡ held q h + contexts_at q (data_of cs)
    held_planned q = omega (
      arith,
      Allocates-held posix_memalign held alloc_holds (pointers planned.plan) h planned.heap q
          planned.steps,
      count_at-pointers q planned.plan,
      weigh-Perm (λ d. count_at q (data_pointers d)) once_planned,
    )

    -- Let no allocation fail and the ring be set up, let the file have a byte and its size stay a
    -- window below 2 ^ 64, let the number of windows of all outputs stay below 2 ^ 64, and let each
    -- request that was asked for complete once, in whatever order and with whatever result. Then
    -- `perform_uring_broadcast` returns the bytes of the contexts whose write did not fail, modulo
    -- 2 ^ 64, and has freed every block that it allocated, each once.
    pub perform_uring_broadcast-Balanced :
        (h' : Heap) × (perform_uring_broadcast posix_memalign u free input outs
            (pos sz)
            h
            (map got cs)
          ≡ ok (bytes_written cs % word_mod, h'))
        × ((q : ℕ) → held q h' ≡ held q h)
    unfolding perform_uring_broadcast
    perform_uring_broadcast-Balanced =
        let expected = length outs * windows_of sz in
        let enough : 0 + carrying cs ≡ expected =
          omega (arith, carrying_lem cs, weigh_once carries, planned.contexts) in
        let owned = λ (q : ℕ). count_at-owned_blocks q cs in
        let released =
          freed-held free held free_releases (owned_blocks cs) planned.heap
            (λ q. omega (arith, held_planned q, owned q)) in
        let nothing : (0 + bytes_written cs) % word_mod ≡ bytes_written cs % word_mod =
          omega arith in
        (
          freed free (owned_blocks cs) planned.heap,
          rw (init, perform_uring_broadcast)
              (rw (planned.result, perform_uring_broadcast)
                (ap (λ n. reap free n 0 0 planned.heap (map got cs))
                    (expected_lem sz (length outs) fits few)
                  ∙ reap_all free expected 0 0 planned.heap cs enough (omega arith)
                  ∙ ap (λ n. ok (n, freed free (owned_blocks cs) planned.heap)) nothing)),
          λ q. omega (arith, released q, held_planned q, owned q),
        )

    -- Let no allocation fail and the ring be set up, let the file have a byte and its size stay a
    -- window below 2 ^ 64, let the number of windows of all outputs stay below 2 ^ 64, and let each
    -- request that was asked for complete once, in whatever order, and succeed. Then
    -- `perform_uring_broadcast` returns the size of the file once for each output, modulo 2 ^ 64.
    pub perform_uring_broadcast_total :
        All (λ (c : Cqe Data). is_negative c.res ≡ false) cs
        → (h' : Heap) × (perform_uring_broadcast posix_memalign u free input outs
              (pos sz)
              h
              (map got cs)
            ≡ ok (length outs * sz % word_mod, h'))
    perform_uring_broadcast_total good =
        let (h', e, b) = perform_uring_broadcast-Balanced in
        let total : bytes_written cs % word_mod ≡ length outs * sz % word_mod =
          ap (λ n. n % word_mod)
            (bytes_written_good cs good ∙ weigh_once data_bytes ∙ planned.bytes) in
        (h', e ∙ ap (λ n. ok (n, h')) total)
