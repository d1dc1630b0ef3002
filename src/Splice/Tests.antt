-- ===== src/Splice/Tests.antt =====
-- The splice broadcast on concrete inputs, and its theorem at one.
use independent_study.Base.{
  replicate, ◌++◌, ℕ, ◌≡◌, refl, List, [], ◌∷◌, map, concat, ok, fail, undefined, pos, negsuc,
  arith,
}
use independent_study.Liburing.{Cqe, got}
use independent_study.Liburing.Sim.{sim, Ring}
use independent_study.Liburing.Queue.{Queued, sent}
use independent_study.Splice.{
  Output, Progress, fill_pipe, round, broadcast, perform_splice_broadcast,
}
use independent_study.Splice.Plan.{plan, pairs}
use independent_study.Splice.Reap.{tally}
use independent_study.Splice.Prepare.{Handles, prepare_splice}
use independent_study.Splice.Prepare.Chunks.{entries_from, prepare_splice_lem, prepare_splice_full}
use independent_study.Splice.Drop.{round_drops}
use independent_study.Splice.Complete.{broadcast_complete}

abbrev outputs : List Output
outputs =
    record { file = pos 4; write_pipe = pos 6; read_pipe = pos 7 }
    ∷ record { file = pos 5; write_pipe = pos 8; read_pipe = pos 9 }
    ∷ []

-- Two chunks, of 262144 and 37856 bytes.
abbrev file_size : ℕ
file_size = 300000

abbrev filled : Cqe ℕ
filled = record { user_data = 0; res = pos 262144 }

abbrev drained : ℕ → Cqe ℕ
drained n = record { user_data = n; res = pos n }

abbrev completions : List (Cqe ℕ)
completions =
    filled
    ∷ drained 262144
    ∷ filled
    ∷ drained 262144
    ∷ filled
    ∷ drained 37856
    ∷ filled
    ∷ record { user_data = 37856; res = negsuc 4 }
    ∷ []

abbrev ring : Ring ℕ
ring = record { depth = 512; queued = []; batches = [] }

-- The last drain fails, so its bytes are not verified.
verified_bytes :
    perform_splice_broadcast (sim ℕ) (pos file_size) (pos 3) outputs (map got completions)
    ≡ ok 562144
unfolding perform_splice_broadcast
verified_bytes = refl

no_file : perform_splice_broadcast (sim ℕ) (negsuc 0) (pos 3) outputs [] ≡ ok 0
unfolding perform_splice_broadcast
no_file = refl

broadcast_complete_example :
    (p : Progress (sim ℕ)) × (broadcast
        (sim ℕ)
        ring
        (pos file_size)
        (pos 3)
        outputs
        (map got completions)
      ≡ ok p)
    × (concat p.ring.batches ≡ plan (pos 3) outputs file_size)
    × (p.ring.queued ≡ [])
    × (perform_splice_broadcast (sim ℕ) (pos file_size) (pos 3) outputs (map got completions)
        ≡ ok (tally 0 completions))
broadcast_complete_example =
    broadcast_complete (sim ℕ) (pos 3) outputs file_size 128 ring completions refl refl refl

abbrev handles : Handles
handles = record { input = pos 3; output = pos 4; pipe_r = pos 7; pipe_w = pos 6 }

prepare_splice_lem_example :
    (r' : Ring ℕ) × (prepare_splice (sim ℕ) ring (pos file_size) handles ≡ ok (r', 4))
    × Queued (sim ℕ) ring r' (entries_from handles file_size 0 2)
prepare_splice_lem_example = prepare_splice_lem (sim ℕ) ring handles file_size (omega arith)

-- The second chunk does not fit.
abbrev small_ring : Ring ℕ
small_ring = record { depth = 2; queued = []; batches = [] }

prepare_splice_full_example :
    prepare_splice (sim ℕ) small_ring (pos file_size) handles ≡ fail undefined
prepare_splice_full_example =
    prepare_splice_full (sim ℕ) small_ring handles file_size (omega arith) (omega arith)

-- 85 chunks for three outputs are queued; the next chunk fits for one output only.
abbrev three : List Output
three = record { file = pos 10; write_pipe = pos 11; read_pipe = pos 12 } ∷ outputs

abbrev first_output : List Output
first_output = record { file = pos 10; write_pipe = pos 11; read_pipe = pos 12 } ∷ []

abbrev nearly_full : Progress (sim ℕ)
nearly_full = record {
  ring = record {
    depth = 512;
    queued = replicate 510 (
        fill_pipe (pos 3) (record { file = pos 10; write_pipe = pos 11; read_pipe = pos 12 }) 0
          262144);
    batches = [];
  };
  total_processed = 22282240;
  verified = 0;
  expected_cqes = 510;
  waits = map got (replicate 512 filled);
}

round_drops_example :
    (p' : Progress (sim ℕ)) × (round (sim ℕ) (pos 3) three 30000000 nearly_full ≡ ok p')
    × (p'.total_processed ≡ 22544384)
    × (sent (sim ℕ) p'.ring
        ≡ sent (sim ℕ) nearly_full.ring ++ pairs (pos 3) first_output 22282240 262144)
    × (p'.ring.queued ≡ [])
    × (p'.expected_cqes ≡ 0)
round_drops_example =
    round_drops (sim ℕ) (pos 3) first_output
      (record { file = pos 4; write_pipe = pos 6; read_pipe = pos 7 })
      (record { file = pos 5; write_pipe = pos 8; read_pipe = pos 9 } ∷ []) 30000000 nearly_full
      (replicate 512 filled) refl refl refl refl (omega arith)
