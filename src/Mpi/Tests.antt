-- ===== src/Mpi/Tests.antt =====
-- The string broadcast on concrete inputs, and its theorems at them.
use independent_study.Base.{
  ℕ, ◌≡◌, refl, ap, List, [], ◌∷◌, map, get_elem?, Option, none, some, ok, arith,
}
use independent_study.Mpi.{Mpi, broadcast, test_comms}
use independent_study.Mpi.Strings.{before_nul, broadcast_lem}
use independent_study.Mpi.Comms.{hello}

abbrev given_all : {A : Type 0} → Option A → List A → List A
given_all none buffers = buffers
given_all (some v) buffers = map (λ _. v) buffers

abbrev ranks : Mpi
ranks = record {
  bcast = λ root buffers. given_all (get_elem? buffers root) buffers;
  bcast_all = λ root buffers v e. ap (λ o. given_all o buffers) e;
}

-- "ab", a character 0, and "c".
abbrev cut : List ℕ
cut = 97 ∷ 98 ∷ 0 ∷ 99 ∷ []

broadcast_lem_example :
    broadcast ranks 1 ([] ∷ cut ∷ (100 ∷ []) ∷ [])
    ≡ ok ((97 ∷ 98 ∷ []) ∷ (97 ∷ 98 ∷ []) ∷ (97 ∷ 98 ∷ []) ∷ [])
unfolding before_nul
broadcast_lem_example = broadcast_lem ranks 1 ([] ∷ cut ∷ (100 ∷ []) ∷ []) cut refl (omega arith)

three_ranks : test_comms ranks 3 ≡ ok (hello ∷ hello ∷ hello ∷ [])
unfolding test_comms before_nul
three_ranks = refl
