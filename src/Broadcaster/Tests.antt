-- ===== src/Broadcaster/Tests.antt =====
-- The event loop on concrete inputs, and its theorems at them.
use independent_study.Base.{
  ◌≡◌, refl, [], ◌∷◌, ok, fail, blocked, exit_with, pos, negsuc, inr, arith,
}
use independent_study.Broadcaster.{
  read, Request, Flight, Loop, continue, completes, handle, event_loop, q_depth,
}
use independent_study.Broadcaster.FanOut.{fan_out, read_fans_out}
use independent_study.Broadcaster.Idle.{Inv, After}
use independent_study.Broadcaster.Safe.{handle-Inv}
use independent_study.Broadcaster.Lost.{last_client_hangs}

abbrev read_request : Request
read_request = record { type = read; buffer = 0; file = pos 3; bytes_to_write = 0 }

abbrev reading : Loop
reading = record {
  input_fd = pos 3;
  output_fds = pos 4 ∷ pos 5 ∷ [];
  writes_pending = 0;
  next_buffer = 1;
}

abbrev first_read : Flight
first_read = record { request = read_request; prepared = read; count = 4096 }

reading-Inv : Inv reading (first_read ∷ [])
reading-Inv = record { pending = refl; alternate = inr (refl, refl); alive = λ _. omega arith }

two_writes :
    handle q_depth reading read_request (pos 100)
    ≡ ok (continue (record reading { writes_pending = 2 }) (fan_out 0 100 (pos 4 ∷ pos 5 ∷ [])))
unfolding handle
two_writes = refl

handle-Inv_example : After [] (handle q_depth reading read_request (pos 100))
handle-Inv_example = handle-Inv q_depth [] [] first_read reading (pos 100) reading-Inv

-- Two clients and one entry.
read_fans_out_example : handle 1 reading read_request (pos 100) ≡ fail (exit_with 1)
read_fans_out_example = read_fans_out 1 reading read_request 100 refl

-- Two clients, and EPIPE at each of them.
last_client_hangs_example :
    event_loop q_depth
      (completes 0 (pos 100)
        ∷ completes 0 (negsuc 31)
        ∷ completes 0 (negsuc 31)
        ∷ completes 0 (pos 100)
        ∷ [])
      reading
      (first_read ∷ [])
    ≡ fail blocked
last_client_hangs_example =
    last_client_hangs q_depth reading first_read 100 (31 ∷ 31 ∷ []) [] refl (omega arith)
      (omega arith) (omega arith) refl ((omega arith), ((omega arith), tt))
