-- ===== src/Main/Program.antt =====
-- `main` itself: the engines by mode, the `try` block, and what is closed at the end.
use independent_study.Base.{
  ℕ, if◌then◌else◌, List, [], ◌∷◌, Option, none, some, Outcome, ok, fail, ◌>>=◌, exception, ℤ, pos,
  negsuc, is_negative,
}
use independent_study.Liburing.{Fd}
use independent_study.IoHandle.{Name}
use independent_study.Main.{
  eio, einval, ebadfd, size_of, Dir, argument, directory, fifo, rdonly, Run, returned, threw, ended,
  System, Engines, is_mode, mode_below, complete, unopened, unmade, Pipes, Opening, no_pipe,
  not_open, opened, open_outputs, open_pipe, open_pipes, close_handle, close_handles, release,
}

module _ (sys : System) (engines : Engines sys.World) where
  open sys use {World, open_file, unlink, create_directories, atoi, extension}

  -- What the `try` block and its handler make of how the engine ends.
  unfoldable pub after_piped : Dir → Fd → Fd → Pipes World → Run ℕ World → Outcome (ℕ × World)
  unfolding release
  after_piped dir input_w input_r ps (returned total w) =
      ok (0, release sys dir input_w input_r ps w)
  after_piped dir input_w input_r ps (threw w) = ok (eio, release sys dir input_w input_r ps w)
  after_piped dir input_w input_r ps (ended fault) = fail fault

  unfoldable pub piped_engine : Dir → Fd → List Fd → Fd → Fd → Pipes World → Run ℕ World
  piped_engine dir source dests input_w input_r ps =
      if is_mode dir.mode 3
      then engines.splice source dests ps.writes ps.reads ps.world
      else engines.tee source input_w input_r dests ps.writes ps.reads ps.world

  unfoldable pub run_piped : Dir → Fd → List Fd → Fd → Fd → Pipes World → Outcome (ℕ × World)
  unfolding release after_piped piped_engine
  run_piped dir source dests input_w input_r ps = elim ps.ending [
    | unmade ↦ ok (eio, release sys dir input_w input_r ps ps.world)
    | unopened ↦ ok (ebadfd, release sys dir input_w input_r ps ps.world)
    | complete ↦
        after_piped dir input_w input_r ps (piped_engine dir source dests input_w input_r ps)
  ]

  -- The `try` block, for `copies` outputs.
  unfoldable pub broadcast_piped : ℕ → Dir → Fd → List Fd → Opening World → Outcome (ℕ × World)
  unfolding open_pipes run_piped
  broadcast_piped copies dir source dests (no_pipe w) = ok (eio, w)
  broadcast_piped copies dir source dests (not_open w) = ok (ebadfd, unlink (fifo dir 0) w)
  broadcast_piped copies dir source dests (opened input_w input_r w) =
      run_piped dir source dests input_w input_r (open_pipes sys copies 1 dir w)

  -- An engine outside the `try` block.
  unfoldable pub after_plain : Run ℕ World → Outcome (ℕ × World)
  after_plain (returned total w) = ok (0, w)
  after_plain (threw w) = fail exception
  after_plain (ended fault) = fail fault

  unfoldable pub dispatch : ℕ → Dir → Fd → List Fd → World → Outcome (ℕ × World)
  unfolding open_pipe broadcast_piped after_plain
  dispatch copies dir source dests w =
      if is_mode dir.mode 1
      then after_plain (engines.readv source dests w)
      else if is_mode dir.mode 2
      then after_plain (engines.uring source dests w)
      else if mode_below dir.mode 3
      then ok (0, w)
      else broadcast_piped copies dir source dests (open_pipe sys (fifo dir 0) w)

  -- From the opened outputs on; the handles go at the end.
  unfoldable pub finish : Fd → List Fd → Outcome (ℕ × World) → Outcome (ℕ × World)
  unfolding close_handle close_handles
  finish source dests (ok (status, w)) =
      ok (status, close_handle sys source (close_handles sys dests w))
  finish source dests (fail fault) = fail fault

  -- `reserve` throws on a negative number, which is a large one as a `size_t`.
  unfoldable pub broadcast_to : ℤ → Dir → Name → Fd → Option World → Outcome (ℕ × World)
  unfolding open_outputs dispatch finish
  broadcast_to (negsuc n) dir ext source w = fail exception
  broadcast_to (pos copies) dir ext source none = fail exception
  broadcast_to (pos copies) dir ext source (some w) =
      open_outputs sys copies 0 dir ext w >>= λ (dests, w').
      finish source dests (dispatch copies dir source dests w')

  unfoldable pub with_source : Name → Name → Name → Fd × World → Outcome (ℕ × World)
  unfolding broadcast_to
  with_source mode input copies (fd, w) =
      let dir : Dir = record { mode = atoi mode; size = size_of (atoi copies) } in
      if is_negative fd
      then ok (ebadfd, w)
      else broadcast_to (atoi copies) dir (extension input) fd
          (create_directories (directory dir) w)

  -- `main` of the arguments from the program's name on: the exit status.
  unfoldable pub main : List Name → World → Outcome (ℕ × World)
  unfolding with_source
  main (program ∷ mode ∷ input ∷ copies ∷ rest) w =
      with_source mode input copies (open_file (argument input) rdonly w)
  main [] w = ok (einval, w)
  main (a ∷ []) w = ok (einval, w)
  main (a ∷ b ∷ []) w = ok (einval, w)
  main (a ∷ b ∷ c ∷ []) w = ok (einval, w)
