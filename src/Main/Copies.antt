-- ===== src/Main/Copies.antt =====
-- `main` in mode 1 as a whole, with the engine in its place: from the arguments to the files.
mod Tests
use mathlib.Core.List.{Perm}
use independent_study.Base.{
  ℕ, ◌+◌, ◌*◌, ◌%◌, ◌^◌, ◌≤◌, ◌<◌, ◌≡◌, ◌≢◌, refl, ap, ap₂, sym, subst, ◌∙◌, false, List, [], ◌∷◌,
  length, get_elem?, get_elem?-lt, some, Outcome, Gives, ok, fail, word_mod, pos, is_negative,
  arith,
}
use independent_study.Base.Orders.{below}
use independent_study.Liburing.{Fd}
use independent_study.IoHandle.{Name}
use independent_study.ReadvTree.{perform_readv_broadcast}
use independent_study.ReadvTree.Tree.{perform_readv_broadcast_lem}
use independent_study.ReadvTree.Frame.{perform_readv_broadcast-keeps}
use independent_study.Main.{
  Dir, size_of, FileName, argument, directory, output, rdonly, rdwr_create_trunc, Run, returned,
  ended, System, Engines, open_outputs, close_handle, close_handles,
}
use independent_study.Main.Opened.{AllOpen, AllOpen-kept, opened_reliable, opened-Group}
use independent_study.Main.Program.{after_plain, dispatch, finish, broadcast_to, with_source, main}
use independent_study.Main.Files.{
  CopyCalls, file_io, Files, close_handle-stored, close_handles-stored, open_outputs-Emptied,
}

-- How `main` sees the end of an engine that does not throw.
abbrev pub as_run : {W : Type 0} → Outcome (ℕ × W) → Run ℕ W
as_run (ok (total, w)) = returned total w
as_run (fail fault) = ended fault

-- The directory of the outputs of mode 1.
abbrev pub mode_one : ℕ → Dir
mode_one n = record { mode = pos 1; size = size_of (pos n) }

-- The engines, of which the first one is the tree broadcast.
abbrev pub tree_engines :
    (sys : System)
    → CopyCalls sys.World
    → (ℕ → List ℕ)
    → (ℕ → ℕ)
    → Engines sys.World
    → Engines sys.World
tree_engines sys calls schedule ceil_log2 others = record others {
  readv = λ source dests w.
      as_run (perform_readv_broadcast (file_io sys calls) schedule ceil_log2 source dests w);
}

module _ (sys : System) (calls : CopyCalls sys.World) (files : Files sys calls)
    (schedule : ℕ → List ℕ) (each_once : (round : ℕ) → Perm (schedule round) (below (2 ^ round)))
    (ceil_log2 : ℕ → ℕ) (others : Engines sys.World) where
  open sys use {World, open_file, create_directories, atoi, extension}
  open files use {content, stored, Buffers, gathered, IsFile, IsOpen, Distinct, transfers_keep}

  abbrev engines : Engines World
  engines = tree_engines sys calls schedule ceil_log2 others

  module _ (dir : Dir) (ext : Name) (input : FileName)
      (apart : (i : ℕ) → Distinct (output dir i ext) input)
      (distinct : (i j : ℕ) → i ≢ j → Distinct (output dir i ext) (output dir j ext))
      (source : List ℕ) where
    -- The engine on an open source and open, empty outputs.
    record Spread (fds : List Fd) (root : Fd) (w : World) : Type 0 where
      world : World
      total : ℕ
      result : engines.readv root fds w ≡ returned total world
      copied :
          (i : ℕ) (fd : Fd) → get_elem? fds i ≡ some fd → stored (output dir i ext) world ≡ source

    abbrev IsAllOpen : List Fd → Fd → World → Type 0
    IsAllOpen fds root = AllOpen sys calls files dir ext input apart distinct fds root

    spread :
        (fds : List Fd) (root : Fd) (w : World)
        → length fds + 1 < 2 ^ 31
        → length fds + 1 ≤ 2 ^ ceil_log2 (length fds + 1)
        → IsAllOpen fds root w
        → stored input w ≡ source
        → ((i : ℕ) (fd : Fd) → get_elem? fds i ≡ some fd → stored (output dir i ext) w ≡ [])
        → Spread fds root w
    spread fds root w no_overflow enough all holds empty =
        let io = file_io sys calls in
        let held = files.open_content in
        let (w', e, copies) =
          perform_readv_broadcast_lem io
            (opened_reliable sys calls files dir ext input apart distinct fds root) root fds source
            (opened-Group sys calls files dir ext input apart distinct fds root w all) schedule
            each_once ceil_log2 w no_overflow enough all (held root input rdonly w all.0 ∙ holds)
            (λ i fd g.
              let clear =
                held fd (output dir i ext) rdwr_create_trunc w (all.1 i fd g) ∙ empty i fd g in
              omega (arith, ap length clear)) in
        let still : IsAllOpen fds root w' = subst (Gives (IsAllOpen fds root)) e (
          perform_readv_broadcast-keeps io (IsAllOpen fds root)
            (AllOpen-kept sys calls files dir ext input apart distinct fds root) schedule ceil_log2
            root fds w all) in
        record {
          world = w';
          total = length fds * length source % word_mod;
          result = ap as_run e;
          copied = λ i fd g.
              sym (held fd (output dir i ext) rdwr_create_trunc w' (still.1 i fd g))
              ∙ copies i fd g;
        }

  -- The way from the arguments to the engine and back, where nothing fails on it.
  with_source_one :
      (mode input copies : Name) (n : ℕ) (w w2 : World) (fds : List Fd) (w3 w4 : World) (total : ℕ)
      → atoi mode ≡ pos 1
      → atoi copies ≡ pos n
      → is_negative (open_file (argument input) rdonly w).0 ≡ false
      → create_directories (directory (mode_one n)) (open_file (argument input) rdonly w).1
        ≡ some w2
      → open_outputs sys n 0 (mode_one n) (extension input) w2 ≡ ok (fds, w3)
      → engines.readv (open_file (argument input) rdonly w).0 fds w3 ≡ returned total w4
      → with_source sys engines mode input copies (open_file (argument input) rdonly w)
        ≡ ok
            (0, close_handle sys (open_file (argument input) rdonly w).0 (close_handles sys fds w4))
  unfolding with_source broadcast_to dispatch finish after_plain
  with_source_one mode input copies n w w2 fds w3 w4 total one number there made opened ran =
      let root = (open_file (argument input) rdonly w).0 in
      let w1 = (open_file (argument input) rdonly w).1 in
      let dir : Dir = mode_one n in
      rw (there, with_source)
        (ap₂
            (λ m c.
              broadcast_to sys engines c (record { mode = m; size = size_of c }) (extension input)
                root (create_directories (directory (record { mode = m; size = size_of c })) w1))
            one number
          ∙ ap (broadcast_to sys engines (pos n) dir (extension input) root) made
          ∙ rw (opened, broadcast_to)
              (ap (λ r. finish sys engines root fds (after_plain sys engines r)) ran))

  -- Let the mode be 1, with the tree broadcast as its engine, let the input and the outputs be
  -- different regular files that can be opened, let the directory be made, let nothing fail and no
  -- transfer be short, let each round run its iterations once each, in any order, let there be fewer
  -- than 2 ^ 31 nodes, and let the number of rounds be at least log2 of their number. Then `main`
  -- returns 0, and every output holds the bytes of the input.
  pub main_copies :
      (program mode input copies : Name) (rest : List Name) (n : ℕ) (source : List ℕ) (w : World)
      → atoi mode ≡ pos 1
      → atoi copies ≡ pos n
      → ((i : ℕ) → Distinct (output (mode_one n) i (extension input)) (argument input))
      → ((i j : ℕ)
          → i ≢ j
          → Distinct
              (output (mode_one n) i (extension input))
              (output (mode_one n) j (extension input)))
      → IsFile (argument input)
      → ((i : ℕ) → IsFile (output (mode_one n) i (extension input)))
      → is_negative (open_file (argument input) rdonly w).0 ≡ false
      → ((name : FileName) (v : World) → (v' : World) × (create_directories name v ≡ some v'))
      → ((i : ℕ) (v : World)
          → is_negative (open_file (output (mode_one n) i (extension input)) rdwr_create_trunc v).0
            ≡ false)
      → n + 1 < 2 ^ 31
      → n + 1 ≤ 2 ^ ceil_log2 (n + 1)
      → stored (argument input) w ≡ source
      → (w' : World) × (main sys
            (tree_engines sys calls schedule ceil_log2 others)
            (program ∷ mode ∷ input ∷ copies ∷ rest)
            w
          ≡ ok (0, w'))
        × ((i : ℕ) → i < n → stored (output (mode_one n) i (extension input)) w' ≡ source)
  unfolding main
  main_copies program mode input copies rest n source w one number apart distinct a_file are_files
        there creates never_fails no_overflow enough holds =
      let dir : Dir = mode_one n in
      let ext = extension input in
      let root = (open_file (argument input) rdonly w).0 in
      let w1 = (open_file (argument input) rdonly w).1 in
      let (w2, made) = creates (directory dir) w1 in
      let (same, still) = files.create_stored (directory dir) w1 w2 made in
      let outs =
        open_outputs-Emptied sys calls files dir ext refl never_fails distinct are_files n 0 w2 in
      let root_open =
        outs.still_open root (argument input) rdonly (
          still root (argument input) rdonly
            (files.opens (argument input) rdonly w a_file there)) in
      let source_there =
        outs.others (argument input) (λ j le. apart j)
        ∙ same (argument input)
        ∙ files.rdonly_stored (argument input) w
        ∙ holds in
      let each : (i : ℕ) (fd : Fd)
          → get_elem? outs.fds i ≡ some fd
          → IsOpen fd (output dir i ext) rdwr_create_trunc outs.world
            × (stored (output dir i ext) outs.world ≡ []) =
        λ i fd e.
          let same_place : 0 + i ≡ i = omega arith in
          subst
            (λ j.
              IsOpen fd (output dir j ext) rdwr_create_trunc outs.world
              × (stored (output dir j ext) outs.world ≡ []))
            same_place (outs.each i fd e) in
      let s =
        spread dir ext (argument input) apart distinct source outs.fds root outs.world
          (rw outs.many no_overflow) (rw outs.many enough) (root_open, λ i fd e. (each i fd e).0)
          source_there (λ i fd e. (each i fd e).1) in
      (
        close_handle sys root (close_handles sys outs.fds s.world),
        with_source_one mode input copies n w w2 outs.fds outs.world s.world s.total one number
            there made outs.result s.result,
        λ i lt.
            let (fd, e) = get_elem?-lt outs.fds i (omega (arith, outs.many, lt)) in
            close_handle-stored sys calls files root (close_handles sys outs.fds s.world)
              (output dir i ext)
            ∙ close_handles-stored sys calls files outs.fds s.world (output dir i ext)
            ∙ s.copied i fd e,
      )
