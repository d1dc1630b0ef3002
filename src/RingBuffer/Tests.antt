-- ===== src/RingBuffer/Tests.antt =====
-- The ring on concrete inputs, and its theorems at them.
use independent_study.Base.{ℕ, true, ◌≡◌, refl, List, [], ◌∷◌, arith, ok, fail, undefined}
use independent_study.RingBuffer.{RingBuffer, init, put, get, peek}
use independent_study.RingBuffer.Fifo
use independent_study.RingBuffer.Fifo.{
  Op, putting, getting, peeking, testing_full, done, item, answer, thrown,
}
use independent_study.RingBuffer.Refine.Run.{run, run_refines}

-- a full ring of two whose oldest item, 8, is the second of the array
abbrev full_pair : RingBuffer ℕ
full_pair = record { buffer = 9 ∷ 8 ∷ []; capacity = 2; size = 2; head = 1; tail = 1 }

abbrev script : List (Op ℕ)
script =
    putting 1 ∷ putting 2 ∷ putting 3 ∷ testing_full ∷ getting ∷ peeking ∷ getting ∷ getting ∷ []

put_overwrites :
    put full_pair 7
    ≡ ok (record { buffer = 9 ∷ 7 ∷ []; capacity = 2; size = 2; head = 0; tail = 0 })
unfolding put
put_overwrites = refl

-- A ring of no items has no place to write to.
put_nowhere : put {A = ℕ} (init 0 0) 5 ≡ fail undefined
unfolding put init
put_nowhere = refl

script_answers :
    run (init 0 2) script
    ≡ ok (done ∷ done ∷ done ∷ answer true ∷ item 2 ∷ item 3 ∷ item 3 ∷ thrown ∷ [])
unfolding run put get init peek
script_answers = refl

run_refines_example : run (init 0 2) script ≡ ok (Fifo.run 2 [] script)
run_refines_example = run_refines 0 2 script (omega arith) (omega arith)
