-- ===== src/Splice/Delivery/Tests.antt =====
-- The delivery of the splice broadcast on concrete inputs.
use independent_study.Base.{
  ℕ, suc, zero, ◌≡◌, ◌≢◌, refl, some_inj, List, [], ◌∷◌, replicate, map, get_elem?, concat, some,
  ok, pos, arith,
}
use independent_study.Base.Interleave.{Interleave, finished, taken}
use independent_study.Liburing.{Sqe, Cqe, got}
use independent_study.Liburing.Sim.{sim, Ring}
use independent_study.Kernel.{run_all}
use independent_study.Kernel.Sim.{host_kernel, host_transfers, host, files_differ}
use independent_study.Splice.{Output, Progress, splice_chunk_size, fill_pipe, drain_pipe, broadcast}
use independent_study.Splice.Plan.{chunks_from}
use independent_study.Splice.Delivery.{Ends}
use independent_study.Splice.Delivery.Any.{Wired, Fresh, queues}
use independent_study.Splice.Delivery.Submitted.{broadcast_delivers}

abbrev first : Output
first = record { file = pos 4; write_pipe = pos 100; read_pipe = pos 101 }

abbrev second : Output
second = record { file = pos 5; write_pipe = pos 102; read_pipe = pos 103 }

abbrev outputs : List Output
outputs = first ∷ second ∷ []

abbrev bytes : List ℕ
bytes = 7 ∷ 8 ∷ 9 ∷ []

each_pipe :
    (i : ℕ) (o : Output) → get_elem? outputs i ≡ some o → Ends host_kernel host_transfers o i
each_pipe zero o e = rw (← some_inj e) (record { writes = refl; reads = refl; file = refl })
each_pipe (suc zero) o e = rw (← some_inj e) (record { writes = refl; reads = refl; file = refl })
each_pipe (suc (suc i)) o e = cc

not_source : (i : ℕ) (o : Output) → get_elem? outputs i ≡ some o → pos 3 ≢ o.file
not_source zero o e = rw (← some_inj e) (files_differ 3 4 (omega arith))
not_source (suc zero) o e = rw (← some_inj e) (files_differ 3 5 (omega arith))
not_source (suc (suc i)) o e = cc

different :
    (i j : ℕ) (o o' : Output)
    → get_elem? outputs i ≡ some o
    → get_elem? outputs j ≡ some o'
    → i ≢ j
    → o.file ≢ o'.file
different zero zero o o' e e' ne = absurd (ne refl)
different zero (suc zero) o o' e e' ne =
    rw (← some_inj e, ← some_inj e') (files_differ 4 5 (omega arith))
different (suc zero) zero o o' e e' ne =
    rw (← some_inj e, ← some_inj e') (files_differ 5 4 (omega arith))
different (suc zero) (suc zero) o o' e e' ne = absurd (ne refl)
different (suc (suc i)) j o o' e e' ne = cc
different zero (suc (suc j)) o o' e e' ne = cc
different (suc zero) (suc (suc j)) o o' e e' ne = cc

abbrev wired : Wired host_kernel host_transfers (pos 3) outputs
wired = record {
  from_file = refl;
  room = omega arith;
  number = λ i. i;
  ends = each_pipe;
  apart_source = not_source;
  apart = λ i j o o' e e' ne. (different i j o o' e e' ne, ne);
}

no_file_bytes : (i : ℕ) (o : Output) → get_elem? outputs i ≡ some o → (host bytes).files o.file ≡ []
no_file_bytes zero o e = rw (← some_inj e) refl
no_file_bytes (suc zero) o e = rw (← some_inj e) refl
no_file_bytes (suc (suc i)) o e = cc

fresh : Fresh host_kernel host_transfers (pos 3) outputs wired bytes (host bytes)
fresh = record { source_whole = refl; no_bytes = no_file_bytes; no_held = λ i o e. refl }

-- The second output's requests run around those of the first.
abbrev nested : List (Sqe ℕ)
nested =
    fill_pipe (pos 3) second 0 3
    ∷ fill_pipe (pos 3) first 0 3
    ∷ drain_pipe first 0 3
    ∷ drain_pipe second 0 3
    ∷ []

nested-Interleave : Interleave (queues (pos 3) outputs 3) nested
unfolding chunks_from
nested-Interleave = taken _ 1 _ _ _ refl (
    taken _ 0 _ _ _ refl
      (taken _ 0 _ _ _ refl (taken _ 1 _ _ _ refl (finished _ (refl, (refl, tt))))))

abbrev ring : Ring ℕ
ring = record { depth = 512; queued = []; batches = [] }

abbrev completed : List (Cqe ℕ)
completed =
    record { user_data = 0; res = pos 3 }
    ∷ record { user_data = 0; res = pos 3 }
    ∷ record { user_data = 3; res = pos 3 }
    ∷ record { user_data = 3; res = pos 3 }
    ∷ []

broadcast_delivers_example :
    (p : Progress (sim ℕ)) × (broadcast (sim ℕ) ring (pos 3) (pos 3) outputs (map got completed)
      ≡ ok p)
    × Interleave (queues (pos 3) outputs 3) (concat p.ring.batches)
    × ((i : ℕ) (o : Output)
        → get_elem? outputs i ≡ some o
        → (run_all host_kernel nested (host bytes)).files o.file ≡ bytes)
broadcast_delivers_example =
    broadcast_delivers (sim ℕ) host_kernel host_transfers (pos 3) outputs 128 wired bytes ring
      completed nested (host bytes) refl refl refl nested-Interleave fresh

abbrev sevens : List ℕ
sevens = replicate splice_chunk_size 7

abbrev eights : List ℕ
eights = replicate splice_chunk_size 8
