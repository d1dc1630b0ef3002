-- ===== src/Tee/Delivery/Tests.antt =====
-- The delivery of the tee broadcast on concrete inputs.
use mathlib.Core.List.Perm
use independent_study.Base.{
  ℕ, suc, zero, ◌≡◌, ◌≢◌, refl, subst, none, some_inj, List, [], ◌∷◌, concat, get_elem?, some, ok,
  pos, arith,
}
use independent_study.Liburing.{Cqe}
use independent_study.Liburing.Sim.{sim, Ring}
use independent_study.Kernel.{run_all}
use independent_study.Kernel.Sim.{number_of, host_kernel, host_transfers, host, files_differ}
use independent_study.Tee.{Output, Source, Progress, broadcast}
use independent_study.Tee.Plan.{AllSucceed, chains_from, chunk_count}
use independent_study.Tee.Delivery.{Wired}
use independent_study.Tee.Delivery.Chains.{At, tee_delivers}

abbrev source : Source
source = record { file = pos 3; write_pipe = pos 104; read_pipe = pos 105 }

abbrev first : Output
first = record { file = pos 4; write_pipe = pos 100; read_pipe = pos 101 }

abbrev second : Output
second = record { file = pos 5; write_pipe = pos 102; read_pipe = pos 103 }

abbrev outputs : List Output
outputs = first ∷ second ∷ []

abbrev bytes : List ℕ
bytes = 7 ∷ 8 ∷ 9 ∷ []

-- What holds of both outputs.
of_both :
    (P : ℕ → Output → Type 0)
    → P 0 first
    → P 1 second
    → (i : ℕ) (o : Output) → get_elem? outputs i ≡ some o
    → P i o
of_both P a b zero o e = subst (P 0) (some_inj e) a
of_both P a b (suc zero) o e = subst (P 1) (some_inj e) b
of_both P a b (suc (suc i)) o e = cc

different :
    (i j : ℕ) (o o' : Output)
    → get_elem? outputs i ≡ some o
    → get_elem? outputs j ≡ some o'
    → i ≢ j
    → o.file ≢ o'.file
different i j o o' e e' =
    of_both (λ i o. i ≢ j → o.file ≢ o'.file)
      (of_both (λ j (o' : Output). 0 ≢ j → pos 4 ≢ o'.file) (λ ne. absurd (ne refl))
        (λ _. files_differ 4 5 (omega arith)) j o' e')
      (of_both (λ j (o' : Output). 1 ≢ j → pos 5 ≢ o'.file) (λ _. files_differ 5 4 (omega arith))
        (λ ne. absurd (ne refl)) j o' e')
      i o e

abbrev wired : Wired host_kernel host_transfers source outputs
wired = record {
  room = omega arith;
  from_file = refl;
  middle = 2;
  source_writes = refl;
  source_reads = refl;
  number = λ i. i;
  writes = of_both (λ i o. number_of o.write_pipe ≡ some i) refl refl;
  reads = of_both (λ i o. number_of o.read_pipe ≡ some i) refl refl;
  file = of_both (λ i o. number_of o.file ≡ none) refl refl;
  not_source =
      of_both (λ i o. pos 3 ≢ o.file) (files_differ 3 4 (omega arith))
        (files_differ 3 5 (omega arith));
  not_middle = of_both (λ i o. 2 ≢ i) (omega arith) (omega arith);
  apart = λ i j o o' e e' ne. (different i j o o' e e' ne, ne);
}

ready : At host_kernel host_transfers source first (second ∷ []) wired bytes 0 (host bytes)
ready = record {
  source_whole = refl;
  no_held = refl;
  clear = λ i x e. refl;
  so_far = of_both (λ i o. (host bytes).files o.file ≡ []) refl refl;
}

abbrev ring : Ring ℕ
ring = record { depth = 1024; queued = []; batches = [] }

abbrev cqe : ℕ → Cqe ℕ
cqe n = record { user_data = n; res = pos n }

abbrev replies : List (List (Cqe ℕ))
replies = (cqe 0 ∷ cqe 0 ∷ cqe 3 ∷ cqe 3 ∷ []) ∷ []

replies-AllSucceed : AllSucceed (chains_from source outputs 3 0 (chunk_count 3)) replies
unfolding chains_from
replies-AllSucceed =
    (record { complete = Perm.refl _; succeeded = (refl, (refl, (refl, (refl, tt)))) }, tt)

tee_delivers_example :
    (p : Progress (sim ℕ)) × (broadcast (sim ℕ) ring (pos 3) source outputs replies ≡ ok p)
    × ((i : ℕ) (x : Output)
        → get_elem? outputs i ≡ some x
        → (run_all host_kernel (concat p.ring.batches) (host bytes)).files x.file ≡ bytes)
tee_delivers_example =
    tee_delivers (sim ℕ) host_kernel host_transfers source first (second ∷ []) wired bytes ring
      replies (host bytes) (omega arith) (omega arith) refl replies-AllSucceed ready
