-- ===== src/Tee/Tests.antt =====
-- The tee broadcast on concrete inputs, and its theorems at them.
use mathlib.Core.List.Perm
use independent_study.Base.{
  ℕ, ◌+◌, ◌*◌, ◌%◌, ◌≡◌, refl, List, [], ◌∷◌, length, replicate, ok, fail, undefined, pos, negsuc,
  word_mod, arith,
}
use independent_study.Liburing.{Cqe}
use independent_study.Liburing.Sim.{sim, Ring}
use independent_study.Tee.{Output, Source, Progress, broadcast, perform_tee_broadcast}
use independent_study.Tee.Plan.{AllSucceed, chains_from, chunk_count}
use independent_study.Tee.Complete.{tee_complete}
use independent_study.Tee.Overflow.{tee_overflow}
use independent_study.Tee.Pack.{pack_data, packed_fd, packed_size, packed_offset, packed-pack_data}
use independent_study.Tee.Cqes.{process_cqes, process_cqes_behind, skipped}

abbrev source : Source
source = record { file = pos 3; write_pipe = pos 6; read_pipe = pos 7 }

abbrev output : Output
output = record { file = pos 4; write_pipe = pos 8; read_pipe = pos 9 }

-- Two chunks, of 262144 and 37856 bytes.
abbrev file_size : ℕ
file_size = 300000

abbrev cqe : ℕ → Cqe ℕ
cqe n = record { user_data = n; res = pos n }

abbrev ring : Ring ℕ
ring = record { depth = 1024; queued = []; batches = [] }

abbrev replies : List (List (Cqe ℕ))
replies =
    (cqe 0 ∷ cqe 0 ∷ cqe 262144 ∷ cqe 262144 ∷ [])
    ∷ (cqe 0 ∷ cqe 0 ∷ cqe 37856 ∷ cqe 37856 ∷ [])
    ∷ []

moved_bytes :
    perform_tee_broadcast (sim ℕ) (pos file_size) source (output ∷ output ∷ []) replies ≡ ok 600000
unfolding perform_tee_broadcast
moved_bytes = refl

-- With no outputs the loop over them runs behind the spans.
no_outputs : perform_tee_broadcast (sim ℕ) (pos 5) source [] replies ≡ fail undefined
unfolding perform_tee_broadcast
no_outputs = refl

replies-AllSucceed : AllSucceed (chains_from source (output ∷ output ∷ []) file_size 0 2) replies
unfolding chains_from
replies-AllSucceed = (
  record { complete = Perm.refl _; succeeded = (refl, (refl, (refl, (refl, tt)))) },
  (record { complete = Perm.refl _; succeeded = (refl, (refl, (refl, (refl, tt)))) }, tt),
)

tee_complete_example :
    (p : Progress (sim ℕ)) × (broadcast
        (sim ℕ)
        ring
        (pos file_size)
        source
        (output ∷ output ∷ [])
        replies
      ≡ ok p)
    × (p.ring.batches
        ≡ chains_from source (output ∷ output ∷ []) file_size 0 (chunk_count file_size))
    × (p.ring.queued ≡ [])
    × (perform_tee_broadcast (sim ℕ) (pos file_size) source (output ∷ output ∷ []) replies
        ≡ ok (length (output ∷ output ∷ []) * file_size % word_mod))
tee_complete_example =
    tee_complete (sim ℕ) ring source output (output ∷ []) file_size replies (omega arith)
      (omega arith) refl replies-AllSucceed

abbrev many : List Output
many = replicate 512 output

tee_overflow_example : broadcast (sim ℕ) ring (pos 5) source (output ∷ many) [] ≡ fail undefined
tee_overflow_example =
    tee_overflow (sim ℕ) source 5 ring [] refl output many (omega arith) (omega arith) (omega arith)

-- A size of 1 MiB does not fit its field.
packed-pack_data_example :
    (packed_fd (pack_data (pos 9) (pos 4096) 1048576) ≡ 9)
    × (packed_size (pack_data (pos 9) (pos 4096) 1048576) ≡ 0)
    × (packed_offset (pack_data (pos 9) (pos 4096) 1048576) ≡ 4096)
packed-pack_data_example = packed-pack_data (pos 9) (pos 4096) 1048576

abbrev mixed : List (Cqe ℕ)
mixed = cqe 5 ∷ record { user_data = 5; res = negsuc 124 } ∷ cqe 7 ∷ []

process_cqes_behind_example :
    ((process_cqes mixed).0 ≡ 0) × ((process_cqes mixed).1 + skipped mixed ≡ 3)
process_cqes_behind_example =
    process_cqes_behind mixed ((λ _. refl), ((λ e. cc), ((λ _. refl), tt)))
