-- ===== src/UringVec/Pairs.antt =====
-- A submission never comes between a read and the write that is linked to it: each batch is made
-- of whole pairs.
use native.Mathlib.Decide.{dec_lt}
use independent_study.Base.{
  ℕ, ◌+◌, ◌*◌, ◌≤◌, ◌<◌, ◌≡◌, refl, ap, sym, subst, ◌∙◌, List, [], ◌∷◌, ◌++◌, length, true, false,
  ok, All, arith,
}
use independent_study.Liburing.{Fd, Sqe, Liburing}
use independent_study.Liburing.Queue.{
  sent, Queued, Queued-trans, length-Queued, get_room, sent-Queued, sent-submit,
}
use independent_study.UringVec.{RequestContext, Data, read_sqe, write_sqe, queue_entry}

-- A read linked to the write of the same blocks at the same offset, which carries the context.
pub record IsPair (rd wr : Sqe Data) : Type 0 where
  pub input : Fd
  pub output : Fd
  pub context : RequestContext
  pub offset : ℕ
  pub reads : rd ≡ read_sqe input context offset
  pub writes : wr ≡ write_sqe output context offset
  pub linked : rd.link ≡ true
  pub last : wr.link ≡ false

abbrev pub Paired : List (Sqe Data) → Type 0
Paired [] = Unit
Paired (rd ∷ []) = ⊥
Paired (rd ∷ wr ∷ rest) = IsPair rd wr × Paired rest

pub Paired-append : (xs ys : List (Sqe Data)) → Paired xs → Paired ys → Paired (xs ++ ys)
Paired-append [] ys p q = q
Paired-append (x ∷ []) ys p q = absurd p
Paired-append (x ∷ x' ∷ xs) ys p q = (p.0, Paired-append xs ys p.1 q)

Paired-even : (xs : List (Sqe Data)) → Paired xs → (h : ℕ) × (length xs ≡ 2 * h)
Paired-even [] p = (0, refl)
Paired-even (x ∷ []) p = absurd p
Paired-even (x ∷ x' ∷ xs) p = let (h, e) = Paired-even xs p.1 in (h + 1, omega (arith, e))

All-snoc :
    (xss : List (List (Sqe Data))) (xs : List (Sqe Data))
    → All Paired xss
    → Paired xs
    → All Paired (xss ++ xs ∷ [])
All-snoc [] xs h p = (p, tt)
All-snoc (ys ∷ xss) xs h p = (h.0, All-snoc xss xs h.1 p)

module _ (u : Liburing Data) where
  open u use {
    Ring, depth, queued, batches, get_sqe, submit, get_full, submit_queued, submit_batches,
    submit_depth,
  }

  -- The queue and every batch so far consist of pairs, in a queue of 1024 entries.
  pub record IsWhole (r : Ring) : Type 0 where
    pub size : depth r ≡ 1024
    pub waiting : Paired (queued r)
    pub handed : All Paired (batches r)

  pub submit-IsWhole : (r : Ring) → IsWhole r → IsWhole (submit r)
  submit-IsWhole r w = record {
    size = submit_depth r ∙ w.size;
    waiting = subst Paired (sym (submit_queued r)) tt;
    handed =
        subst (All Paired) (sym (submit_batches r))
          (All-snoc (batches r) (queued r) w.handed w.waiting);
  }

  record Entered (r : Ring) (s : Sqe Data) : Type 0 where
    ring : Ring
    result : queue_entry u r s ≡ ok ring
    entry : Queued u r ring (s ∷ [])

  entry_room : (r : Ring) (s : Sqe Data) → length (queued r) < depth r → Entered r s
  unfolding queue_entry
  entry_room r s h =
      let (fill, e, q) = get_room u r h in
      record { ring = fill s; result = rw (e, queue_entry); entry = q s }

  -- A full queue is submitted first.
  record Flushed (r : Ring) (s : Sqe Data) : Type 0 where
    ring : Ring
    result : queue_entry u r s ≡ ok ring
    entry : Queued u (submit r) ring (s ∷ [])

  entry_full : (r : Ring) (s : Sqe Data) → depth r ≤ length (queued r) → 0 < depth r → Flushed r s
  unfolding queue_entry
  entry_full r s h pos =
      let (fill, e, q) =
        get_room u (submit r) (omega (arith, submit_depth r, ap length (submit_queued r))) in
      record { ring = fill s; result = rw (get_full r h, queue_entry) (rw e); entry = q s }

  pub record PairQueued (r : Ring) (rd wr : Sqe Data) : Type 0 where
    pub middle : Ring
    pub ring : Ring
    pub read_result : queue_entry u r rd ≡ ok middle
    pub write_result : queue_entry u middle wr ≡ ok ring
    pub whole : IsWhole ring
    pub more : sent u ring ≡ sent u r ++ rd ∷ wr ∷ []

  -- Two entries behind a ring `b` that has room for both.
  pair_behind :
      (b m t : Ring) (rd wr : Sqe Data)
      → IsWhole b
      → IsPair rd wr
      → Queued u b m (rd ∷ [])
      → Queued u m t (wr ∷ [])
      → IsWhole t × (sent u t ≡ sent u b ++ rd ∷ wr ∷ [])
  pair_behind b m t rd wr w p q q' =
      let both = Queued-trans u b m t (rd ∷ []) (wr ∷ []) q q' in
      (
        record {
          size = both.same_depth ∙ w.size;
          waiting =
              subst Paired (sym both.more)
                (Paired-append (queued b) (rd ∷ wr ∷ []) w.waiting (p, tt));
          handed = subst (All Paired) (sym both.same_batches) w.handed;
        },
        sent-Queued u b t (rd ∷ wr ∷ []) both,
      )

  pub queue_pair_whole :
      (r : Ring) (rd wr : Sqe Data) → IsWhole r → IsPair rd wr → PairQueued r rd wr
  queue_pair_whole r rd wr w p = elim (dec_lt (length (queued r)) 1024) [
    | yes free ↦
        let (h, even) = Paired-even (queued r) w.waiting in
        let a = entry_room r rd (omega (arith, w.size)) in
        let b =
          entry_room a.ring wr
            (omega (arith, length-Queued u r a.ring _ a.entry, a.entry.same_depth, w.size, even)) in
        let (whole, more) = pair_behind r a.ring b.ring rd wr w p a.entry b.entry in
        record {
          middle = a.ring;
          ring = b.ring;
          read_result = a.result;
          write_result = b.result;
          whole = whole;
          more = more;
        }
    | no full ↦
        let a = entry_full r rd (omega (arith, w.size)) (omega (arith, w.size)) in
        let b = entry_room a.ring wr (
          omega (
            arith,
            length-Queued u (submit r) a.ring _ a.entry,
            ap length (submit_queued r),
            a.entry.same_depth,
            submit_depth r,
            w.size,
          )) in
        let (whole, more) =
          pair_behind (submit r) a.ring b.ring rd wr (submit-IsWhole r w) p a.entry b.entry in
        record {
          middle = a.ring;
          ring = b.ring;
          read_result = a.result;
          write_result = b.result;
          whole = whole;
          more = more ∙ ap (λ ss. ss ++ rd ∷ wr ∷ []) (sent-submit u r);
        }
  ]
