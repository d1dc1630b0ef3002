-- ===== src/ReadvTree/Tests.antt =====
-- The tree broadcast on concrete inputs, and its theorems at them.
use mathlib.Core.List.Perm
use independent_study.Base.{
  length-replicate, some_inj, zero, suc, ℕ, ◌+◌, ◌*◌, ◌%◌, ◌^◌, ◌≤◌, ◌≡◌, ◌≢◌, refl, ap,
  if◌then◌else◌, List, [], ◌∷◌, length, get_elem?, replicate, none, some, ok, ℤ, pos, pos_part,
  minus_one, word_mod, arith,
}
use independent_study.Base.Orders.{below}
use independent_study.Liburing.{Fd, fd_eq}
use independent_study.IoHandle.FileSize.{get_file_size}
use independent_study.FileIo.Sim.{
  Disk, disk_io, disk_reliable, disk_counting, allocated, cramped_io, cramped_counting,
}
use independent_study.ReadvTree.{chunk_size, submit_read_write, perform_readv_broadcast}
use independent_study.ReadvTree.Copy.{overwritten, submit_read_write_lem}
use independent_study.ReadvTree.Tree.{perform_readv_broadcast_lem}
use independent_study.ReadvTree.Memory.{submit_read_write-Balanced, submit_read_write_leaks}

abbrev bytes : List ℕ
bytes = 7 ∷ 8 ∷ 9 ∷ []

-- The source is file 3; file 4 holds one byte, and the other files are empty.
abbrev files : Fd → List ℕ
files fd = if fd_eq fd (pos 3) then bytes else if fd_eq fd (pos 4) then 1 ∷ [] else []

abbrev disk : Disk
disk = record { files = files; next = 0; memory = λ p. []; live = λ p. 0 }

abbrev outputs : List Fd
outputs = pos 4 ∷ pos 5 ∷ pos 6 ∷ []

-- Each round from the last iteration to the first.
abbrev in_turn : ℕ → List ℕ
in_turn round = below (2 ^ round)

apart : (a b : ℕ) → a ≢ b → pos a ≢ pos b
apart a b ne e = ne (ap pos_part e)

moved_bytes :
    (r : ℕ × Disk) × (perform_readv_broadcast disk_io in_turn (λ n. 2) (pos 3) outputs disk ≡ ok r)
    × (r.0 ≡ 9)
    × (r.1.files (pos 6) ≡ bytes)
unfolding perform_readv_broadcast
moved_bytes = (_, refl, refl, refl)

submit_read_write_lem_example :
    (w' : Disk) × (submit_read_write disk_io (pos 3) (pos 4) 0 disk ≡ ok (pos 3, w'))
    × (w'.files (pos 4) ≡ overwritten bytes (1 ∷ []))
    × ((fd : Fd) → Unit {0} → fd ≢ pos 4 → w'.files fd ≡ disk.files fd)
    × Unit {0}
submit_read_write_lem_example =
    submit_read_write_lem disk_io (disk_reliable chunk_size) (pos 3) (pos 4) disk tt tt tt
      (apart 3 4 (omega arith))

outputs_small : (i : ℕ) (fd : Fd) → get_elem? outputs i ≡ some fd → length (files fd) ≤ 3
outputs_small zero fd e = rw (← some_inj e) (omega arith)
outputs_small (suc zero) fd e = rw (← some_inj e) (omega arith)
outputs_small (suc (suc zero)) fd e = rw (← some_inj e) (omega arith)
outputs_small (suc (suc (suc i))) fd e = cc

perform_readv_broadcast_lem_example :
    (w' : Disk) × (perform_readv_broadcast disk_io in_turn (λ n. 2) (pos 3) outputs disk
      ≡ ok (length outputs * length bytes % word_mod, w'))
    × ((i : ℕ) (fd : Fd) → get_elem? outputs i ≡ some fd → w'.files fd ≡ bytes)
perform_readv_broadcast_lem_example =
    perform_readv_broadcast_lem disk_io (disk_reliable chunk_size) (pos 3) outputs bytes
      (record {
        apart = (
          (apart 3 4 (omega arith), (apart 3 5 (omega arith), (apart 3 6 (omega arith), tt))),
          (
            (apart 4 5 (omega arith), (apart 4 6 (omega arith), tt)),
            ((apart 5 6 (omega arith), tt), (tt, tt)),
          ),
        );
        usable = (tt, (tt, (tt, (tt, tt))));
        writable = (tt, (tt, (tt, tt)));
      })
      in_turn (λ round. Perm.refl _) (λ n. 2) disk (omega arith) (omega arith) tt refl outputs_small

submit_read_write-Balanced_example :
    (r : ℤ) × (w' : Disk) × (submit_read_write disk_io (pos 3) (pos 4) 0 disk ≡ ok (r, w'))
    × ((q : ℕ) → w'.live q ≡ disk.live q)
submit_read_write-Balanced_example =
    submit_read_write-Balanced disk_io (disk_counting chunk_size) (λ w. (_, _, refl)) (pos 3)
      (pos 4) 0 disk

-- A file of two blocks.
abbrev large : Disk
large = record disk { files = λ fd. replicate 65537 0 }

size_large : get_file_size (disk_io.fstat (pos 3) large) none ≡ pos 65537
unfolding get_file_size
size_large = ap pos (length-replicate {A = ℕ} 65537 0)

submit_read_write_leaks_example :
    (submit_read_write cramped_io (pos 3) (pos 4) 0 large ≡ ok (minus_one, (allocated large).1))
    × ((allocated large).1.live 0 ≡ large.live 0 + 1)
submit_read_write_leaks_example =
    submit_read_write_leaks cramped_io (cramped_counting chunk_size) (pos 3) (pos 4) 0 65537 0 large
      (allocated large).1 size_large (omega arith) refl refl
