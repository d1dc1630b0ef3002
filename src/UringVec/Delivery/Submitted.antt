-- ===== src/UringVec/Delivery/Submitted.antt =====
-- What `perform_uring_broadcast` asks of the ring, whatever the order in which the kernel carries it
-- out, copies the source to all outputs.
use independent_study.Base.{
  ℕ, ◌+◌, ◌-◌, ◌≤◌, ◌<◌, ◌≡◌, ◌≢◌, ◌==◌, if◌then◌else◌, refl, ap, sym, subst, ◌∙◌, inl, inr, List,
  [], ◌∷◌, ◌++◌, append-nil, length, concat, get_elem?, Option, some, Outcome, ok, fail, All, pos,
  word_mod, suc, arith,
}
use independent_study.Base.Sums.{one_of_sum, two_of_sum}
use independent_study.Base.Orders.{All-get_elem?}
use independent_study.Base.Positions.{same_items}
use independent_study.Base.Interleave.{Interleave}
use independent_study.Liburing.{Fd, Sqe, Liburing}
use independent_study.Liburing.Links.{all_chains}
use independent_study.Kernel.{Kernel, run_all}
use independent_study.Kernel.Vectors.{Vectors, uses, Disjoint}
use independent_study.UringVec.{Data, block_sz, submit_all}
use independent_study.UringVec.Context.{pointers}
use independent_study.UringVec.Plan.{submit_all_lem}
use independent_study.UringVec.Freed.{count_at, Allocates-held}
use independent_study.UringVec.Whole.{init-IsWhole, sent-init}
use independent_study.UringVec.Delivery.{Job, Written, IsReady}
use independent_study.UringVec.Delivery.Any.{Arrived, any_order}
use independent_study.UringVec.Delivery.Jobs.{
  pairs, pairs-requests, all_chains-pairs, Covers, IsFitting, Listed, OutputTiles-Listed,
}

-- The chains of linked requests of all batches that were submitted.
abbrev pub submitted_chains :
    {Heap : Type 0} (u : Liburing Data) → Outcome (u.Ring × Heap) → List (List (Sqe Data))
submitted_chains u (fail e) = []
submitted_chains u (ok (ring, h)) = all_chains (u.batches ring)

module _ (k : Kernel) (v : Vectors k) (input : Fd) (src : List ℕ) where
  open v use {content}

  covered :
      (js : List Job) (w : k.World) (out : Fd) (x : ℕ)
      → ((i : ℕ) (j : Job) → get_elem? js i ≡ some j → Written k v input src j w)
      → Covers out x js
      → get_elem? (content out w) x ≡ get_elem? src x
  covered [] w out x all c = absurd c
  covered (j ∷ js) w out x all (inl (same, le, lt)) =
      let here : j.at + (x - j.at) ≡ x = omega (arith, le) in
      ap (λ g. get_elem? (content g w) x) (sym same)
      ∙ ap (get_elem? (content j.output w)) (sym here)
      ∙ all 0 j refl (x - j.at) (omega (arith, le, lt))
      ∙ ap (get_elem? src) here
  covered (j ∷ js) w out x all (inr c) = covered js w out x (λ i j' e. all (suc i) j' e) c

  module _ (plan : List (Sqe Data)) (l : Listed input (length src) plan)
      (once : (q : ℕ) → count_at q (pointers plan) ≤ 1) where
    abbrev weight : ℕ → Job → ℕ
    weight q j = uses q j.context.iovecs

    all_ready : (i : ℕ) (j : Job) → get_elem? l.jobs i ≡ some j → IsReady k v input src j
    all_ready i j e =
        let f = All-get_elem? (IsFitting input (length src)) l.jobs i j l.fit e in
        record {
          usable = (
            f.lengths,
            λ q. omega (arith, one_of_sum (weight q) l.jobs i j e, l.blocks q, once q),
          );
          inside = f.inside;
          away = f.away;
        }

    all_apart :
        (i i' : ℕ) (j j' : Job)
        → get_elem? l.jobs i ≡ some j
        → get_elem? l.jobs i' ≡ some j'
        → i ≢ i'
        → Disjoint j'.context.iovecs j.context.iovecs
    all_apart i i' j j' e e' ne q =
        omega (arith, two_of_sum (weight q) l.jobs i i' j j' e e' ne, l.blocks q, once q)

    arrived :
        (ss : List (Sqe Data)) (w : k.World)
        → Interleave (pairs plan) ss
        → content input w ≡ src
        → Arrived k v input src l.jobs all_ready all_apart w (run_all k ss w)
    arrived ss w order whole =
        any_order k v input src l.jobs all_ready all_apart ss w
          (subst (λ qs. Interleave qs ss) (ap pairs l.same ∙ pairs-requests input l.jobs) order)
          whole

    same_bytes :
        (ss : List (Sqe Data)) (w : k.World) (out : Fd)
        → Interleave (pairs plan) ss
        → content input w ≡ src
        → length (content out w) ≤ length src
        → ((x : ℕ) → x < length src → Covers out x l.jobs)
        → content out (run_all k ss w) ≡ src
    same_bytes ss w out order whole short covers =
        let a = arrived ss w order whole in
        same_items (content out (run_all k ss w)) src (a.lengths out short)
          (λ x lt. covered l.jobs (run_all k ss w) out x a.written (covers x lt))

-- Let no allocation fail and none give a block that is in use, and let the ring be set up. Let the
-- source hold `src`, of 1 to 2 ^ 64 - 1 bytes, and let the outputs be other files, none longer than
-- the source. Let the kernel move all bytes of a transfer, and carry out the requests in any order
-- that keeps each chain of linked requests in its order. Then all requests are submitted, and
-- each output holds exactly the bytes of the source afterwards.
pub vectored_delivers :
    {Heap : Type 0} (posix_memalign : ℕ → ℕ → Heap → Option (ℕ × Heap))
    (never_fails : (h : Heap)
      → (p : ℕ) × (h' : Heap) × (posix_memalign 4096 block_sz h ≡ some (p, h')))
    (held : ℕ → Heap → ℕ)
    (alloc_holds : (h h' : Heap) (p q : ℕ)
      → posix_memalign 4096 block_sz h ≡ some (p, h')
      → held q h' ≡ held q h + (if p == q then 1 else 0))
    (one_owner : (q : ℕ) (h : Heap) → held q h ≤ 1) (u : Liburing Data) (input : Fd)
    (outs : List Fd) (k : Kernel) (v : Vectors k) (src : List ℕ) (r : u.Ring) (h : Heap)
    (ss : List (Sqe Data)) (w : k.World)
    → u.queue_init 1024 ≡ some r
    → 0 < length src
    → length src < word_mod
    → All (λ out. input ≢ out) outs
    → All (λ out. length (v.content out w) ≤ length src) outs
    → v.content input w ≡ src
    → Interleave
        (submitted_chains u (submit_all posix_memalign u input outs (pos (length src)) r h))
        ss
    → (ring : u.Ring) × (h' : Heap) × (submit_all posix_memalign u input outs (pos (length src)) r h
        ≡ ok (ring, h'))
      × (u.queued ring ≡ [])
      × ((i : ℕ) (out : Fd) → get_elem? outs i ≡ some out → v.content out (run_all k ss w) ≡ src)
vectored_delivers posix_memalign never_fails held alloc_holds one_owner u input outs k v src r h ss
      w init some_bytes small away short whole order =
    let p =
      submit_all_lem posix_memalign never_fails u input (length src) some_bytes small outs r h
        (init-IsWhole u r init) in
    let nothing_left = p.drained (u.init_queued 1024 r init) in
    let all : concat (u.batches p.ring) ≡ p.plan =
      sym (append-nil (concat (u.batches p.ring)))
      ∙ ap (λ l. concat (u.batches p.ring) ++ l) (sym nothing_left)
      ∙ p.more
      ∙ ap (λ l. l ++ p.plan) (sent-init u r init) in
    let l = OutputTiles-Listed input (length src) outs p.plan away p.tiles in
    let once : (q : ℕ) → count_at q (pointers p.plan) ≤ 1 = λ q. omega (
      arith,
      Allocates-held posix_memalign held alloc_holds (pointers p.plan) h p.heap q p.steps,
      one_owner q p.heap,
    ) in
    let pairs_order : Interleave (pairs p.plan) ss =
      subst (λ qs. Interleave qs ss)
        (ap (submitted_chains u) p.result
          ∙ all_chains-pairs (u.batches p.ring) p.whole.handed
          ∙ ap pairs all)
        order in
    (
      p.ring,
      p.heap,
      p.result,
      nothing_left,
      λ i out e.
          same_bytes k v input src p.plan l.listed once ss w out pairs_order whole
            (All-get_elem? (λ g. length (v.content g w) ≤ length src) outs i out short e)
            (λ x lt. l.covers i out x e lt),
    )
