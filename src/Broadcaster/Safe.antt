-- ===== src/Broadcaster/Safe.antt =====
-- What holds after every round of the event loop, whichever request completes and however.
use native.Mathlib.Decide.{dec_lt}
use independent_study.Base.{
  ==_iff, ℕ, suc, ◌+◌, ◌-◌, ◌≡◌, refl, inl, inr, ◌==◌, List, [], ◌∷◌, ◌++◌, length, ok, ℤ, pos,
  negsuc, Bool-cases, arith,
}
use independent_study.Liburing.{Fd}
use independent_study.Broadcaster.{
  OpType, read, write, Request, Flight, Loop, stop, eagain, chunk, submit_read, drop_client,
  on_error, on_success, handle,
}
use independent_study.Broadcaster.FanOut.{
  fan_out, fan_out_counts, submit_writes_fit, submit_writes_over,
}
use independent_study.Broadcaster.Counts.{read_weight, write_weight, reads, writes}
use independent_study.Broadcaster.Idle.{
  Inv, After, length-ne-nil, not_one, split_writes, split_reads, more_writes, more_reads,
  start_read_Inv, keep_Inv, drop_client_Inv,
}

module _ (entries : ℕ) (before after : List Flight) where
  abbrev rest : List Flight
  rest = before ++ after

  module _ (b c : ℕ) (fd : Fd) (how : OpType) (n : ℕ) (l : Loop) where
    abbrev asked : OpType → Request
    asked t = record { type = t; buffer = b; file = fd; bytes_to_write = c }

    abbrev flight : OpType → Flight
    flight t = record { request = asked t; prepared = how; count = n }

    read_done :
        (res : ℕ)
        → Inv l (before ++ flight read ∷ after)
        → After rest (on_success entries l (asked read) res)
    unfolding on_success
    read_done res v = elim (Bool-cases (res == 0)) [
      | inl e ↦ rw (e, on_success) tt
      | inr e ↦
          rw (e, on_success)
            (elim (dec_lt entries (length l.output_fds)) [
              | yes over ↦
                  rw (submit_writes_over entries 0 b res l.output_fds (omega arith) (omega arith))
                    tt
              | no fit ↦ rw (submit_writes_fit entries 0 b res l.output_fds (omega arith)) fanned
            ])
    ]
      where
        idle : (reads rest ≡ 0) × (writes rest ≡ 0)
        idle = omega (
          arith,
          split_reads entries before after (flight read),
          split_writes entries before after (flight read),
          v.alternate,
        )

        fanned :
            Inv
              (record l { writes_pending = length l.output_fds })
              (rest ++ fan_out b res l.output_fds)
        fanned = record {
          pending = omega (
            arith,
            more_writes entries before after (fan_out b res l.output_fds),
            (fan_out_counts b res l.output_fds).0,
            idle.1,
          );
          alternate = inl (
              omega (
                arith,
                more_reads entries before after (fan_out b res l.output_fds),
                (fan_out_counts b res l.output_fds).1,
                idle.0,
              ));
          alive = λ ne. omega (
            arith,
            more_writes entries before after (fan_out b res l.output_fds),
            (fan_out_counts b res l.output_fds).0,
            length-ne-nil l.output_fds ne,
          );
        }

    write_rest :
        Inv l (before ++ flight write ∷ after)
        → (l.writes_pending ≡ 1 + writes rest) × (reads rest ≡ 0)
    write_rest v = omega (
      arith,
      split_reads entries before after (flight write),
      split_writes entries before after (flight write),
      v.alternate,
      v.pending,
    )

    write_done :
        (res : ℕ)
        → Inv l (before ++ flight write ∷ after)
        → After rest (on_success entries l (asked write) res)
    unfolding on_success
    write_done res v = elim (Bool-cases (l.writes_pending == 1)) [
      | inl e ↦
          rw (e, on_success)
            (start_read_Inv entries before after
              (record l { writes_pending = l.writes_pending - 1 })
              (omega (arith, (==_iff l.writes_pending 1).0 e))
              (omega (arith, (==_iff l.writes_pending 1).0 e, (write_rest v).0)) (write_rest v).1)
      | inr e ↦
          rw (e, on_success)
            (keep_Inv entries before after (record l { writes_pending = l.writes_pending - 1 })
              (omega (arith, (write_rest v).0)) (write_rest v).1
              (λ _. omega (arith, not_one l.writes_pending e, (write_rest v).0)))
    ]

    -- A request of another kind changes neither count.
    same_Inv :
        (t : OpType)
        → read_weight t ≡ 0
        → write_weight t ≡ 0
        → Inv l (before ++ flight t ∷ after)
        → Inv l (rest ++ [])
    same_Inv t r w v = record {
      pending = omega (
        arith,
        split_writes entries before after (flight t),
        more_writes entries before after [],
        v.pending,
        w,
      );
      alternate = omega (
        arith,
        split_reads entries before after (flight t),
        split_writes entries before after (flight t),
        more_reads entries before after [],
        more_writes entries before after [],
        v.alternate,
        r,
        w,
      );
      alive = λ ne. omega (
        arith,
        split_reads entries before after (flight t),
        split_writes entries before after (flight t),
        more_reads entries before after [],
        more_writes entries before after [],
        v.alive ne,
        r,
        w,
      );
    }

    -- A request that is submitted again counts as before.
    again_Inv :
        (t how' : OpType) (m : ℕ)
        → Inv l (before ++ flight t ∷ after)
        → Inv l (rest ++ record { request = asked t; prepared = how'; count = m } ∷ [])
    again_Inv t how' m v =
        let new : Flight = record { request = asked t; prepared = how'; count = m } in
        record {
          pending = omega (
            arith,
            split_writes entries before after (flight t),
            more_writes entries before after (new ∷ []),
            v.pending,
          );
          alternate = omega (
            arith,
            split_reads entries before after (flight t),
            split_writes entries before after (flight t),
            more_reads entries before after (new ∷ []),
            more_writes entries before after (new ∷ []),
            v.alternate,
          );
          alive = λ ne. omega (
            arith,
            split_reads entries before after (flight t),
            split_writes entries before after (flight t),
            more_reads entries before after (new ∷ []),
            more_writes entries before after (new ∷ []),
            v.alive ne,
          );
        }

    success_Inv :
        (t : OpType) (res : ℕ)
        → Inv l (before ++ flight t ∷ after)
        → After rest (on_success entries l (asked t) res)
    unfolding on_success
    success_Inv read res v = read_done res v
    success_Inv write res v = write_done res v
    success_Inv t res v = same_Inv t refl refl v

    failure_Inv :
        (t : OpType)
        → Inv l (before ++ flight t ∷ after)
        → After rest (elim t [ write ↦ drop_client entries l fd | _ ↦ ok (stop l) ])
    failure_Inv write v =
        drop_client_Inv entries before after l fd (write_rest v).0 (write_rest v).1
    failure_Inv t v = tt

    error_Inv :
        (t : OpType) (errno : ℕ)
        → Inv l (before ++ flight t ∷ after)
        → After rest (on_error entries l (asked t) errno)
    unfolding on_error
    error_Inv t errno v = elim (Bool-cases (errno == eagain)) [
      | inr e ↦ rw (e, on_error) (failure_Inv t v)
      | inl e ↦
          rw (e, on_error)
            (elim (Bool-cases (entries == 0)) [
              | inl z ↦ rw (z, submit_read) tt
              | inr z ↦ rw (z, submit_read) (again_Inv t read chunk v)
            ])
    ]

-- Every round that goes on keeps what the loop relies on, whichever request in flight completes
-- and with whatever result: as many writes are in flight as `writes_pending` says, at most one read is in
-- flight and only when no write is, and while there are clients something is in flight.
pub handle-Inv :
    (entries : ℕ) (before after : List Flight) (f : Flight) (l : Loop) (res : ℤ)
    → Inv l (before ++ f ∷ after)
    → After (before ++ after) (handle entries l f.request res)
unfolding handle
handle-Inv entries before after f l (pos n) v =
    success_Inv entries before after f.request.buffer f.request.bytes_to_write f.request.file
      f.prepared f.count l f.request.type n v
handle-Inv entries before after f l (negsuc n) v =
    error_Inv entries before after f.request.buffer f.request.bytes_to_write f.request.file
      f.prepared f.count l f.request.type (suc n) v
