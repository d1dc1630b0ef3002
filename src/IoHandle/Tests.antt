-- ===== src/IoHandle/Tests.antt =====
-- Handles on concrete inputs, and their theorems at them.
use independent_study.Base.{
  ◌+◌, ◌≡◌, refl, List, [], ◌∷◌, none, some, ok, fail, undefined, ◌>>=◌, pos, to_word, arith,
}
use independent_study.IoHandle.{
  Name, IoHandle, World, move_construct, destroy, get_name, set_name, move_assign,
}
use independent_study.IoHandle.Calls.{
  Call, adopted, moved, destroyed, assigned, named, step, run, owned, closes, adoptions,
}
use independent_study.IoHandle.Owned.{descriptors_conserved}
use independent_study.IoHandle.Returns.{step-Returns}
use independent_study.IoHandle.Names.{moved_name_dangles}
use independent_study.IoHandle.FileSize.{block, get_file_size, to_word-get_file_size}

abbrev empty : World
empty = record { objects = []; closed = [] }

abbrev emptied : Name → Name
emptied name = []

-- A handle on 5 moves to a second one, which then takes over 6.
abbrev calls : List Call
calls =
    adopted (pos 5)
    ∷ named 0 (7 ∷ [])
    ∷ moved 0
    ∷ adopted (pos 6)
    ∷ assigned 1 2
    ∷ destroyed 2
    ∷ destroyed 1
    ∷ destroyed 0
    ∷ []

abbrev finished : World
finished = record { objects = none ∷ none ∷ none ∷ []; closed = pos 5 ∷ pos 6 ∷ [] }

calls_end : run emptied empty calls ≡ ok finished
unfolding move_construct destroy set_name move_assign
calls_end = refl

descriptors_conserved_example :
    owned (pos 5) finished + closes (pos 5) finished
    ≡ owned (pos 5) empty + closes (pos 5) empty + adoptions (pos 5) calls
descriptors_conserved_example =
    descriptors_conserved emptied (pos 5) calls empty finished refl calls_end

abbrev named_handle : IoHandle
named_handle = record { fd = pos 5; default_name = 7 ∷ []; file_name = 0 }

abbrev one_handle : World
one_handle = record { objects = some named_handle ∷ []; closed = [] }

moved_name_dangles_example :
    (move_construct one_handle 0 >>= λ w1. destroy w1 0 >>= λ w2. get_name w2 1) ≡ fail undefined
moved_name_dangles_example = moved_name_dangles one_handle 0 named_handle refl refl

to_word-get_file_size_example :
    to_word (
      get_file_size (some (record { st_mode = block; st_size = pos 0 })) (some 9223372036854775809))
    ≡ 9223372036854775809
to_word-get_file_size_example = to_word-get_file_size (pos 0) 9223372036854775809 (omega arith)

-- The second handle owns 6 and has a name of its own.
abbrev two_handles : World
two_handles = record {
  objects =
      some named_handle ∷ some (record { fd = pos 6; default_name = 8 ∷ []; file_name = 1 }) ∷ [];
  closed = [];
}

step-Returns_example : (w' : World) × (step emptied two_handles (assigned 0 1) ≡ ok w')
step-Returns_example =
    step-Returns emptied two_handles (assigned 0 1) ((_, refl, _, refl), (_, refl, _, refl))
