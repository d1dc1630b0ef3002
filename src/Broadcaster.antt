-- ===== src/Broadcaster.antt =====
-- source/Network/broadcaster.hpp: the event loop that reads a chunk and writes it to all clients.
-- The kernel's side is the list of
-- requests in flight: it completes any of them with any result. How many entries
-- `io_uring_get_sqe` gives on an empty queue is a parameter. A shared buffer is a number, and the
-- ownership that passes through `user_data` is the request itself.
pub mod Counts
pub mod FanOut
pub mod Idle
pub mod Safe
pub mod Lost
mod Tests
use independent_study.Base.{
  ℕ, zero, suc, ◌+◌, ◌++◌, get_elem?, none, some, blocked, ◌-◌, Bool, true, false, ltb, ◌==◌, ◌&&◌,
  not, if◌then◌else◌, List, [], ◌∷◌, length, Outcome, ok, fail, ◌>>=◌, exit_with, ℤ, pos, negsuc,
}
use independent_study.Liburing.{Fd, fd_eq}

-- `enum class OpType` of source/file_system/IO_Handle.hpp
pub data OpType : Type 0 where
  read write splice tee src_splice_pipe pipe_tee_pipe pipe_splice_pipe pipe_splice_dest : OpType

-- `Network::Request`, as `broadcast` makes and reads it: with a shared buffer, and the descriptor of
-- the handle. The class of source/Network/Request.hpp has another name, constructor and `getFile`.
pub record Request : Type 0 where
  pub type : OpType
  pub buffer : ℕ
  pub file : Fd
  pub bytes_to_write : ℕ

-- CHUNK and Q_DEPTH
abbrev pub chunk : ℕ
chunk = 4096

abbrev pub q_depth : ℕ
q_depth = 64

abbrev pub eagain : ℕ
eagain = 11

-- A request in flight, with how it was prepared: `io_uring_prep_read` of so many bytes, or
-- `io_uring_prep_write`; both at offset 0.
pub record Flight : Type 0 where
  pub request : Request
  pub prepared : OpType
  pub count : ℕ

-- The variables of `broadcast`; `next_buffer` is the number of the next buffer that is allocated.
-- `writes_pending` is an `int` below 2 ^ 31, of which 0 stands for 0 and all below: the code only
-- asks whether it is 0 behind a decrement, so whether it was 1 before, until a read sets it anew.
pub record Loop : Type 0 where
  pub input_fd : Fd
  pub output_fds : List Fd
  pub writes_pending : ℕ
  pub next_buffer : ℕ

-- What `io_uring_wait_cqe` gives: an error, or the result of the i-th request in flight.
pub data Event : Type 0 where
  wait_failed : Event
  completes : ℕ → ℤ → Event

-- How one round of `while (true)` ends: by `break`, or with new requests in flight.
pub data Reaction : Type 0 where
  stop : Loop → Reaction
  continue : Loop → List Flight → Reaction

-- `erase(remove_if(…), end())`: every handle with this descriptor goes.
unfoldable pub erase_fd : Fd → List Fd → List Fd
erase_fd fd [] = []
erase_fd fd (h ∷ hs) = if fd_eq h fd then erase_fd fd hs else h ∷ erase_fd fd hs

abbrev pub remove_at : ℕ → List Flight → List Flight
remove_at i [] = []
remove_at zero (f ∷ fl) = fl
remove_at (suc i) (f ∷ fl) = f ∷ remove_at i fl

abbrev pub is_empty : List Fd → Bool
is_empty [] = true
is_empty (h ∷ hs) = false

module _ (entries : ℕ) where
  -- `submit_read`: it reads into the request's buffer from the request's file, whatever its type.
  unfoldable pub submit_read : Request → Outcome Flight
  submit_read q =
      if entries == 0
      then fail (exit_with 1)
      else ok (record { request = q; prepared = read; count = chunk })

  -- The lambda `start_read`, and the reaction that ends the round with it.
  unfoldable pub start_read : Loop → Outcome Reaction
  unfolding submit_read
  start_read l = do
    let q : Request = record {
      type = read;
      buffer = l.next_buffer;
      file = l.input_fd;
      bytes_to_write = 0;
    }
    f ← submit_read q
    ok (continue (record l { next_buffer = l.next_buffer + 1 }) (f ∷ []))

  -- `submit_write`, with `queued` entries taken before.
  unfoldable pub submit_write : ℕ → Request → Outcome Flight
  submit_write queued q =
      if ltb queued entries
      then ok (record { request = q; prepared = write; count = q.bytes_to_write })
      else fail (exit_with 1)

  -- The loop over the outputs after a read of `res` bytes.
  unfoldable pub submit_writes : ℕ → ℕ → ℕ → List Fd → Outcome (List Flight)
  unfolding submit_write
  submit_writes queued buffer res [] = ok []
  submit_writes queued buffer res (fd ∷ fds) = do
    f ←
        submit_write queued
          (record { type = write; buffer = buffer; file = fd; bytes_to_write = res })
    fs ← submit_writes (queued + 1) buffer res fds
    ok (f ∷ fs)

  -- A failed write: the client is dropped.
  unfoldable pub drop_client : Loop → Fd → Outcome Reaction
  unfolding start_read
  drop_client l fd =
      let outs = erase_fd fd l.output_fds in
      let l' = record l { output_fds = outs; writes_pending = l.writes_pending - 1 } in
      if (l.writes_pending == 1) && not (is_empty outs) then start_read l' else ok (continue l' [])

  unfoldable pub on_error : Loop → Request → ℕ → Outcome Reaction
  unfolding submit_read drop_client
  on_error l q errno =
      if errno == eagain
      then (submit_read q >>= λ f. ok (continue l (f ∷ [])))
      else elim q.type [ write ↦ drop_client l q.file | _ ↦ ok (stop l) ]

  unfoldable pub on_success : Loop → Request → ℕ → Outcome Reaction
  unfolding submit_writes start_read
  on_success l q res = elim q.type [
    | read ↦
        if res == 0
        then ok (stop l)
        else (submit_writes 0 q.buffer res l.output_fds >>= λ fs.
            ok (continue (record l { writes_pending = length l.output_fds }) fs))
    | write ↦
        let l' = record l { writes_pending = l.writes_pending - 1 } in
        if l.writes_pending == 1 then start_read l' else ok (continue l' [])
    | _ ↦ ok (continue l [])
  ]

  -- One round behind a successful `io_uring_wait_cqe`.
  unfoldable pub handle : Loop → Request → ℤ → Outcome Reaction
  unfolding on_error on_success
  handle l q (pos res) = on_success l q res
  handle l q (negsuc n) = on_error l q (suc n)

  -- `while (true)`, over what the waits give while these requests are in flight: where none is, a
  -- wait never ends. An answer for a request that is not in flight is none.
  unfoldable pub event_loop : List Event → Loop → List Flight → Outcome Loop
  event_loop [] l fl = fail blocked
  event_loop (wait_failed ∷ es) l fl = ok l
  event_loop (completes i res ∷ es) l [] = fail blocked
  event_loop (completes i res ∷ es) l (f ∷ fl) = elim (get_elem? (f ∷ fl) i) [
    | none ↦ event_loop es l (f ∷ fl)
    | some g ↦ elim (handle l g.request res) [
      | fail fault ↦ fail fault
      | ok (stop l') ↦ ok l'
      | ok (continue l' new) ↦ event_loop es l' (remove_at i (f ∷ fl) ++ new)
    ]
  ]
