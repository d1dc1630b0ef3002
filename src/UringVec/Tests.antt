-- ===== src/UringVec/Tests.antt =====
-- The vectored broadcast on concrete inputs, and its theorems at them.
use mathlib.Core.List.Perm
use independent_study.FileIo.Sim.{Disk, disk_io, disk_counting, allocated, alloc_counts}
use independent_study.UringVec.Whole.{
  perform_uring_broadcast-Balanced, perform_uring_broadcast_total,
}
use independent_study.Base.{
  ℕ, ◌+◌, ◌≡◌, refl, List, [], ◌∷◌, map, Option, none, some, ok, pos, negsuc, arith,
}
use independent_study.Liburing.{Cqe, got}
use independent_study.Liburing.Sim.{sim, Ring}
use independent_study.UringVec.{
  RequestContext, Data, block_sz, submit_readv_writev, submit_all, read_sqe, write_sqe, reap,
  expected_completions, perform_uring_broadcast,
}
use independent_study.UringVec.Context.{Built, new_context_covers}
use independent_study.UringVec.Pairs.{IsWhole}
use independent_study.UringVec.Windows.{Submitted, submit_readv_writev_lem}
use independent_study.UringVec.Reap.{reap_all, carrying, freed}

-- An allocator that hands out memory upwards and never fails.
abbrev bump : ℕ → ℕ → ℕ → Option (ℕ × ℕ)
bump alignment size h = some (h, h + size)

bump_succeeds : (h : ℕ) → (p : ℕ) × (h' : ℕ) × (bump 4096 block_sz h ≡ some (p, h'))
bump_succeeds h = (h, h + block_sz, refl)

abbrev ring : Ring Data
ring = record { depth = 1024; queued = []; batches = [] }

ring-IsWhole : IsWhole (sim Data) ring
ring-IsWhole = record { size = refl; waiting = tt; handed = tt }

abbrev disk : Disk
disk = record { files = λ fd. []; next = 0; memory = λ p. []; live = λ p. 0 }

abbrev context : RequestContext
context = record {
  iovecs = record { iov_base = 0; iov_len = 100 } ∷ [];
  raw_pointers = 0 ∷ [];
  bytes = 100;
}

abbrev completions : List (Cqe Data)
completions =
    record { user_data = none; res = pos 100 }
    ∷ record { user_data = some context; res = pos 100 }
    ∷ []

-- Where the size is unknown nothing is expected.
none_expected : expected_completions (negsuc 0) 3 ≡ 0
none_expected = refl

small_file :
    (h' : Disk) × (perform_uring_broadcast disk_io.posix_memalign
        (sim Data)
        disk_io.free
        (pos 3)
        (pos 4 ∷ [])
        (pos 100)
        disk
        (map got completions)
      ≡ ok (100, h'))
    × (h'.live 0 ≡ 0)
unfolding perform_uring_broadcast
small_file = (_, refl, refl)

new_context_covers_example : Built bump bump_succeeds 100000 4096
new_context_covers_example = new_context_covers bump bump_succeeds 100000 4096

-- Two windows, of 8388608 and 1611392 bytes.
submit_readv_writev_lem_example :
    Submitted bump bump_succeeds
      (sim Data)
      (pos 3)
      (pos 4)
      0
      10000000
      ring
      4096
      (submit_readv_writev bump (sim Data) (pos 3) (pos 4) (pos 10000000) 0 ring 4096)
      0
submit_readv_writev_lem_example =
    submit_readv_writev_lem bump bump_succeeds (sim Data) (pos 3) (pos 4) 0 10000000 ring 4096
      ring-IsWhole (omega arith) (omega arith)

reap_all_example :
    reap disk_io.free 1 0 0 disk (map got completions) ≡ ok (100, freed disk_io.free (0 ∷ []) disk)
unfolding carrying
reap_all_example = reap_all disk_io.free 1 0 0 disk completions refl (omega arith)

-- What is asked for to copy a file of 100 bytes to one output.
abbrev asked_ring : Ring Data
asked_ring = record {
  depth = 1024;
  queued = [];
  batches = (read_sqe (pos 3) context 0 ∷ write_sqe (pos 4) context 0 ∷ []) ∷ [];
}

asked :
    submit_all disk_io.posix_memalign (sim Data) (pos 3) (pos 4 ∷ []) (pos 100) ring disk
    ≡ ok (asked_ring, (allocated disk).1)
unfolding submit_all
asked = refl

perform_uring_broadcast-Balanced_example :
    (h' : Disk) × (perform_uring_broadcast disk_io.posix_memalign
        (sim Data)
        disk_io.free
        (pos 3)
        (pos 4 ∷ [])
        (pos 100)
        disk
        (map got completions)
      ≡ ok (100, h'))
    × ((q : ℕ) → h'.live q ≡ disk.live q)
perform_uring_broadcast-Balanced_example =
    perform_uring_broadcast-Balanced disk_io.posix_memalign (λ h. (_, _, refl)) disk_io.free
      (λ q h. h.live q) alloc_counts (disk_counting block_sz).free_releases (sim Data) (pos 3)
      (pos 4 ∷ []) 100 (omega arith) (omega arith) (omega arith) ring refl disk asked_ring
      (allocated disk).1 asked completions (Perm.refl _)

perform_uring_broadcast_total_example :
    (h' : Disk) × (perform_uring_broadcast disk_io.posix_memalign
        (sim Data)
        disk_io.free
        (pos 3)
        (pos 4 ∷ [])
        (pos 100)
        disk
        (map got completions)
      ≡ ok (100, h'))
perform_uring_broadcast_total_example =
    perform_uring_broadcast_total disk_io.posix_memalign (λ h. (_, _, refl)) disk_io.free
      (λ q h. h.live q) alloc_counts (disk_counting block_sz).free_releases (sim Data) (pos 3)
      (pos 4 ∷ []) 100 (omega arith) (omega arith) (omega arith) ring refl disk asked_ring
      (allocated disk).1 asked completions (Perm.refl _) (refl, (refl, tt))
