-- ===== src/Mpi/Comms.antt =====
-- `test_comms`: what each rank prints.
use independent_study.Base.{
  ℕ, zero, suc, ◌+◌, ◌/◌, ◌<◌, ◌≡◌, refl, ap, ◌∙◌, ==_iff, List, [], ◌∷◌, map, replicate, get_elem?,
  some, ok, arith,
}
use independent_study.Mpi.{Mpi, test_messages, test_comms}
use independent_study.Mpi.Strings.{before_nul, broadcast_lem}

abbrev pub hello : List ℕ
hello = 104 ∷ 101 ∷ 108 ∷ 108 ∷ 111 ∷ []

module _ (mpi : Mpi) where
  caster_message :
      (left rank caster i : ℕ)
      → i < left
      → rank + i ≡ caster
      → get_elem? (test_messages mpi left rank caster) i ≡ some hello
  unfolding test_messages
  caster_message zero rank caster i h e = absurd (omega arith)
  caster_message (suc left) rank caster zero h e =
      rw ((==_iff rank caster).1 (omega (arith, e))) refl
  caster_message (suc left) rank caster (suc i) h e =
      caster_message left (rank + 1) caster i (omega arith) (omega (arith, e))

  one_each :
      (left rank caster : ℕ)
      → map (λ (m : List ℕ). hello) (test_messages mpi left rank caster) ≡ replicate left hello
  unfolding test_messages
  one_each zero rank caster = refl
  one_each (suc left) rank caster = ap (λ l. hello ∷ l) (one_each left (rank + 1) caster)

  -- With at least one rank, `broadcast` in `test_comms` returns "hello" on every rank.
  test_comms_lem :
      (num_proc : ℕ) → 0 < num_proc → test_comms mpi num_proc ≡ ok (replicate num_proc hello)
  unfolding test_comms before_nul
  test_comms_lem num_proc some_ranks =
      let caster = num_proc / 2 in
      broadcast_lem mpi caster (test_messages mpi num_proc 0 caster) hello
        (caster_message num_proc 0 caster caster (omega arith) (omega arith)) (omega arith)
      ∙ ap ok (one_each num_proc 0 caster)
