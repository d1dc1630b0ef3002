-- ===== src/UringVec/Delivery/Tests.antt =====
-- The delivery of the vectored broadcast on a concrete input.
use independent_study.Base.{
  ℕ, suc, ◌+◌, ◌≡◌, refl, ltb, ◌==◌, if◌then◌else◌, List, [], ◌∷◌, get_elem?, Option, some,
  some_inj, ap, ok, pos, negsuc, arith,
}
use independent_study.Base.Interleave.{Interleave, taken, finished}
use independent_study.Liburing.{Fd, Sqe}
use independent_study.Liburing.Sim.{sim, Ring}
use independent_study.Kernel.{run_all}
use independent_study.Kernel.Sim.{files_differ}
use independent_study.Kernel.Memory.{Store, store_kernel, store_vectors}
use independent_study.UringVec.{RequestContext, Data, block_sz, submit_all, read_sqe, write_sqe}
use independent_study.UringVec.Delivery.Submitted.{submitted_chains, vectored_delivers}

-- An allocator that numbers the blocks that it hands out.
abbrev numbered : ℕ → ℕ → ℕ → Option (ℕ × ℕ)
numbered alignment size n = some (n, suc n)

abbrev in_use : ℕ → ℕ → ℕ
in_use q n = if ltb q n then 1 else 0

numbered_holds :
    (n n' p q : ℕ)
    → numbered 4096 block_sz n ≡ some (p, n')
    → in_use q n' ≡ in_use q n + (if p == q then 1 else 0)
numbered_holds n n' p q e =
    let same = some_inj e in
    let block : n ≡ p = ap (λ (x : ℕ × ℕ). x.0) same in
    let after : suc n ≡ n' = ap (λ (x : ℕ × ℕ). x.1) same in ground (arith, block, after)

abbrev ring : Ring Data
ring = record { depth = 1024; queued = []; batches = [] }

abbrev bytes : List ℕ
bytes = 7 ∷ 8 ∷ 9 ∷ []

abbrev store : Store
store = record {
  files = λ f. elim f [
    | pos n ↦ if n == 3 then bytes else if n == 5 then 1 ∷ [] else []
    | negsuc n ↦ []
  ];
  memory = λ p. [];
}

-- The context of the n-th block.
abbrev context : ℕ → RequestContext
context n = record {
  iovecs = record { iov_base = n; iov_len = 3 } ∷ [];
  raw_pointers = n ∷ [];
  bytes = 3;
}

-- The requests for the second output run around those for the first.
abbrev nested : List (Sqe Data)
nested =
    read_sqe (pos 3) (context 1) 0
    ∷ read_sqe (pos 3) (context 0) 0
    ∷ write_sqe (pos 4) (context 0) 0
    ∷ write_sqe (pos 5) (context 1) 0
    ∷ []

nested-Interleave :
    Interleave
      (submitted_chains
        (sim Data)
        (submit_all numbered (sim Data) (pos 3) (pos 4 ∷ pos 5 ∷ []) (pos 3) ring 0))
      nested
unfolding submit_all
nested-Interleave = taken _ 1 _ _ _ refl (
    taken _ 0 _ _ _ refl
      (taken _ 0 _ _ _ refl (taken _ 1 _ _ _ refl (finished _ (refl, (refl, tt))))))

vectored_delivers_example :
    (ring' : Ring Data) × (h' : ℕ) × (submit_all numbered
        (sim Data)
        (pos 3)
        (pos 4 ∷ pos 5 ∷ [])
        (pos 3)
        ring
        0
      ≡ ok (ring', h'))
    × (ring'.queued ≡ [])
    × ((i : ℕ) (out : Fd)
        → get_elem? (pos 4 ∷ pos 5 ∷ []) i ≡ some out
        → (run_all store_kernel nested store).files out ≡ bytes)
vectored_delivers_example =
    vectored_delivers numbered (λ n. (_, _, refl)) in_use numbered_holds (λ q n. ground arith)
      (sim Data) (pos 3) (pos 4 ∷ pos 5 ∷ []) store_kernel store_vectors bytes ring 0 nested store
      refl (omega arith) (omega arith)
      (files_differ 3 4 (omega arith), (files_differ 3 5 (omega arith), tt))
      (omega arith, (omega arith, tt)) refl nested-Interleave
