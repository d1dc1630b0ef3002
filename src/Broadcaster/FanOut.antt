-- ===== src/Broadcaster/FanOut.antt =====
-- What follows a read: one write of its buffer for each client.
use native.Mathlib.Decide.{dec_lt}
use independent_study.Base.{
  lt→ltb, le→ltb, leb, ℕ, ◌+◌, ◌≤◌, ◌<◌, ◌≡◌, refl, ◌==◌, if◌then◌else◌, List, [], ◌∷◌, length, ok,
  fail, exit_with, pos, arith,
}
use independent_study.Liburing.{Fd}
use independent_study.Broadcaster.{
  read, write, Request, Flight, Loop, stop, continue, submit_writes, handle,
}
use independent_study.Broadcaster.Counts.{reads, writes}

-- One write of the same buffer for each client, in the clients' order.
abbrev pub fan_out : ℕ → ℕ → List Fd → List Flight
fan_out buffer res [] = []
fan_out buffer res (fd ∷ fds) =
    record {
      request = record { type = write; buffer = buffer; file = fd; bytes_to_write = res };
      prepared = write;
      count = res;
    }
    ∷ fan_out buffer res fds

pub fan_out_counts :
    (buffer res : ℕ) (fds : List Fd)
    → (writes (fan_out buffer res fds) ≡ length fds) × (reads (fan_out buffer res fds) ≡ 0)
fan_out_counts buffer res [] = (refl, refl)
fan_out_counts buffer res (fd ∷ fds) =
    let (w, r) = fan_out_counts buffer res fds in (omega (arith, w), omega (arith, r))

pub submit_writes_fit :
    (entries queued buffer res : ℕ) (fds : List Fd)
    → queued + length fds ≤ entries
    → submit_writes entries queued buffer res fds ≡ ok (fan_out buffer res fds)
unfolding submit_writes
submit_writes_fit entries queued buffer res [] h = refl
submit_writes_fit entries queued buffer res (fd ∷ fds) h =
    rw (lt→ltb queued entries (omega arith), submit_writes)
      (rw (submit_writes_fit entries (queued + 1) buffer res fds (omega arith)))

pub submit_writes_over :
    (entries queued buffer res : ℕ) (fds : List Fd)
    → queued ≤ entries
    → entries < queued + length fds
    → submit_writes entries queued buffer res fds ≡ fail (exit_with 1)
unfolding submit_writes
submit_writes_over entries queued buffer res [] le h = absurd (omega arith)
submit_writes_over entries queued buffer res (fd ∷ fds) le h = elim (dec_lt queued entries) [
  | yes free ↦
      rw (lt→ltb queued entries free, submit_writes)
        (rw (submit_writes_over entries (queued + 1) buffer res fds (omega arith) (omega arith)))
  | no full ↦ rw (le→ltb queued entries (omega arith), submit_writes)
]

-- A chunk of `res` bytes that was read goes to every client once, from the buffer that was read
-- into, and as many writes are then pending as there are clients; with more clients than entries
-- the process exits with status 1. A read of no bytes ends the loop.
pub read_fans_out :
    (entries : ℕ) (l : Loop) (q : Request) (res : ℕ)
    → q.type ≡ read
    → handle entries l q (pos res) ≡ (
        if res == 0
        then ok (stop l)
        else (if leb (length l.output_fds) entries
            then ok (
                continue
                  (record l { writes_pending = length l.output_fds })
                  (fan_out q.buffer res l.output_fds))
            else fail (exit_with 1)))
unfolding handle
read_fans_out entries l q res e = elim (dec_lt entries (length l.output_fds)) [
  | yes over ↦
      ground (
        arith,
        e,
        submit_writes_over entries 0 q.buffer res l.output_fds (omega arith) (omega arith),
      )
  | no fit ↦ ground (arith, e, submit_writes_fit entries 0 q.buffer res l.output_fds (omega arith))
]
