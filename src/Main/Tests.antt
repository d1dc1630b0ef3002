-- ===== src/Main/Tests.antt =====
-- `main` on concrete inputs, and its theorems at them.
mod Sim
use independent_study.Base.{
  ℕ, ◌-◌, ◌≡◌, false, inl, refl, ltb, if◌then◌else◌, List, [], ◌∷◌, ok, pos,
}
use independent_study.IoHandle.{Name}
use independent_study.Main.{Dir, Engines, returned}
use independent_study.Main.Program.{main}
use independent_study.Main.Laws.{Working, Status}
use independent_study.Main.Balance.{main-Done}
use independent_study.Main.Removed.{Leaving}
use independent_study.Main.Removed.Whole.{main_dir, main_removes}
use independent_study.Main.Tests.Sim.{Table, table_system, table_descriptors, table_removing}

abbrev idle : Engines Table
idle = record {
  readv = λ source dests w. returned 0 w;
  uring = λ source dests w. returned 0 w;
  splice = λ source dests writes reads w. returned 7 w;
  tee = λ source input_w input_r dests writes reads w. returned 0 w;
}

abbrev idle_works : Working table_system table_descriptors idle
idle_works = record {
  readv_returns = λ source dests w. (0, w, refl, λ q. refl);
  uring_returns = λ source dests w. (0, w, refl, λ q. refl);
  splice_ends = λ source dests writes reads w. inl (7, w, refl, λ q. refl);
  tee_ends = λ source input_w input_r dests writes reads w. inl (0, w, refl, λ q. refl);
}

abbrev table : Table
table = record { next = 3; live = λ q. if ltb q 3 then 1 else 0; made = λ d i. false }

-- The program's name, mode 3, the input's name, and two outputs.
abbrev arguments : List Name
arguments = [] ∷ (51 ∷ []) ∷ (97 ∷ []) ∷ (50 ∷ []) ∷ []

-- The source, two outputs, and two ends for each of three pipes.
table_run : (w' : Table) × (main table_system idle arguments table ≡ ok (0, w')) × (w'.next ≡ 12)
unfolding main
table_run = (_, refl, refl)

main-Done_example :
    (n : ℕ) × (w' : Table) × (main table_system idle arguments table ≡ ok (n, w'))
    × Status (pos 3) n
    × ((q : ℕ) → w'.live q ≡ table.live q)
main-Done_example =
    main-Done table_system table_descriptors idle idle_works (λ name w. (w, refl))
      (λ dir i ext flags w. refl) [] (51 ∷ []) (97 ∷ []) (50 ∷ []) [] 2 table refl refl

abbrev idle_leaves : (d : Dir) → Leaving table_system d (table_removing d) idle
idle_leaves d = record {
  readv_leaves = λ i source dests w h. h;
  uring_leaves = λ i source dests w h. h;
  splice_leaves = λ i source dests writes reads w h. h;
  tee_leaves = λ i source input_w input_r dests writes reads w h. h;
}

main_removes_example :
    (status : ℕ) × (w' : Table) × (main table_system idle arguments table ≡ ok (status, w'))
    × ((i : ℕ)
        → table.made (main_dir table_system (51 ∷ []) (50 ∷ [])) i ≡ false
        → w'.made (main_dir table_system (51 ∷ []) (50 ∷ [])) i ≡ false)
main_removes_example =
    main_removes table_system table_descriptors idle idle_works (λ name w. (w, refl))
      (λ dir i ext flags w. refl) (51 ∷ []) (50 ∷ []) (table_removing _) (idle_leaves _) []
      (97 ∷ []) [] 2 table refl refl
