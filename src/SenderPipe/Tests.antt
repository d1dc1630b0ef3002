-- ===== src/SenderPipe/Tests.antt =====
-- The reader on concrete inputs, and its theorems at them.
use independent_study.Base.{
  ℕ, ◌+◌, ◌*◌, ◌<◌, ◌≡◌, refl, ap, List, [], ◌∷◌, ◌++◌, length-replicate, replicate, map, ok, fail,
  undefined, pos, negsuc, arith,
}
use independent_study.Liburing.{Fd, failed, got}
use independent_study.Liburing.Queue.{sent}
use independent_study.Liburing.Sim.{Ring, sim}
use independent_study.FileIo.Sim.{
  Disk, disk_io, disk_counting, allocated, cramped_io, cramped_counting,
}
use independent_study.SenderPipe.{Reading, block, read_loop, read_file_request}
use independent_study.SenderPipe.Reads.{reads, all_blocks}
use independent_study.SenderPipe.Loop.{complete}
use independent_study.SenderPipe.Ends.{start, read_loop_lem, read_loop_error, read_loop_failed}
use independent_study.SenderPipe.Request.{read_file_request_lem, read_file_request_leaks}

-- The address of each buffer, and a ring of four entries.
abbrev buffer : ℕ → ℕ
buffer i = 100 + i

abbrev ring : Ring ℕ
ring = record { depth = 4; queued = []; batches = [] }

-- The completions of a file of six blocks, of which the last is short.
abbrev six : List (ℕ × ℕ)
six = (1, 4096) ∷ (0, 4096) ∷ (3, 4096) ∷ (2, 4096) ∷ (3, 11) ∷ (3, 4096) ∷ []

read_loop_lem_example :
    (s : Reading (sim ℕ)) × (read_loop
        (sim ℕ)
        (pos 3)
        (all_blocks (pos 3) buffer)
        (6 * block)
        (map complete six)
        (start (sim ℕ) ring)
      ≡ ok s)
    × (s.total_read ≡ 20491)
    × (sent (sim ℕ) s.ring ≡ reads (pos 3) buffer 0 6)
read_loop_lem_example = read_loop_lem (sim ℕ) (pos 3) buffer 6 ring six refl refl

read_loop_error_example :
    (s : Reading (sim ℕ)) × (k : ℕ) × (read_loop
        (sim ℕ)
        (pos 3)
        (all_blocks (pos 3) buffer)
        (6 * block)
        (map complete ((1, 4096) ∷ []) ++ got (record { user_data = 0; res = negsuc 4 }) ∷ [])
        (start (sim ℕ) ring)
      ≡ ok s)
    × (s.total_read ≡ 4096)
    × (sent (sim ℕ) s.ring ≡ reads (pos 3) buffer 0 k)
    × (k ≡ 1 + s.idx)
    × (0 < s.idx)
read_loop_error_example =
    read_loop_error (sim ℕ) (pos 3) buffer 6 ring ((1, 4096) ∷ []) 0 4 [] refl (omega arith)

read_loop_failed_example :
    read_loop
      (sim ℕ)
      (pos 3)
      (all_blocks (pos 3) buffer)
      (6 * block)
      (map complete ((1, 4096) ∷ []) ++ failed ∷ [])
      (start (sim ℕ) ring)
    ≡ fail undefined
read_loop_failed_example =
    read_loop_failed (sim ℕ) (pos 3) buffer 6 ring ((1, 4096) ∷ []) [] refl (omega arith)

-- All files have two blocks, of which the second is short.
abbrev disk : Disk
disk = record { files = λ fd. replicate 5000 7; next = 0; memory = λ p. []; live = λ p. 0 }

abbrev opened : Disk → Fd × Disk
opened w = (pos 3, w)

abbrev closed : Fd → Disk → Disk
closed fd w = w

abbrev two : List (ℕ × ℕ)
two = (1, 904) ∷ (0, 4096) ∷ []

read_file_request_lem_example :
    (w' : Disk) × (read_file_request disk_io opened closed (sim ℕ) disk (map complete two)
      ≡ ok (record { status = 0; total_read = 5000; world = w' }))
    × ((q : ℕ) → w'.live q ≡ disk.live q)
read_file_request_lem_example =
    read_file_request_lem disk_io (disk_counting block) opened closed (sim ℕ) disk disk 3 5000 _
      ring refl refl refl (ap pos (length-replicate {A = ℕ} 5000 7)) (λ v. (_, _, refl)) (λ q. refl)
      (λ v q. refl) two refl

read_file_request_leaks_example :
    (read_file_request cramped_io opened closed (sim ℕ) disk []
      ≡ ok (record { status = 1; total_read = 0; world = (allocated disk).1 }))
    × ((allocated disk).1.live 0 ≡ disk.live 0 + 1)
read_file_request_leaks_example =
    read_file_request_leaks cramped_io (cramped_counting block) opened closed (sim ℕ) disk disk 3
      5000 _ ring refl refl refl (ap pos (length-replicate {A = ℕ} 5000 7)) [] 0 (allocated disk).1
      refl refl
