-- ===== src/Main/Removed.antt =====
-- No named pipe is left behind by the `try` block of `main`, however it ends.
pub mod Whole
use independent_study.Base.{ℕ, inl, inr, Bool-cases, List, [], ◌∷◌, Gives}
use independent_study.Liburing.{Fd}
use independent_study.Main.{
  Dir, FileName, fifo, Run, returned, threw, ended, System, Engines, is_mode, Pipes, open_pipe,
  open_pipes, remove_pipes,
}
use independent_study.Main.Program.{after_piped, piped_engine, run_piped, broadcast_piped}
use independent_study.Main.Piped.{Ending-cases}
use independent_study.Main.Fifos.{
  RunGives, RunGives-map, Removing, Gone, GoneOr, GoneOr-more, remove_pipes-Gone, release-Gone,
  found_none, found_closed, found_open, open_pipe-Found, open_pipes-Gone,
}

module _ (sys : System) (dir : Dir) (removing : Removing sys dir)
    (engines : Engines sys.World) where
  -- The engines make no pipes.
  pub record Leaving : Type 0 where
    pub readv_leaves :
        (i : ℕ) (source : Fd) (dests : List Fd) (w : sys.World)
        → Gone sys dir removing i w
        → RunGives (Gone sys dir removing i) (engines.readv source dests w)
    pub uring_leaves :
        (i : ℕ) (source : Fd) (dests : List Fd) (w : sys.World)
        → Gone sys dir removing i w
        → RunGives (Gone sys dir removing i) (engines.uring source dests w)
    pub splice_leaves :
        (i : ℕ) (source : Fd) (dests writes reads : List Fd) (w : sys.World)
        → Gone sys dir removing i w
        → RunGives (Gone sys dir removing i) (engines.splice source dests writes reads w)
    pub tee_leaves :
        (i : ℕ) (source input_w input_r : Fd) (dests writes reads : List Fd) (w : sys.World)
        → Gone sys dir removing i w
        → RunGives
            (Gone sys dir removing i)
            (engines.tee source input_w input_r dests writes reads w)

  module _ (leaving : Leaving) (i : ℕ) where
    open sys use {World, open_file, create_directories, atoi, extension}

    abbrev Away : World → Type 0
    Away = Gone sys dir removing i

    abbrev AwayOr : List FileName → World → Type 0
    AwayOr = GoneOr sys dir removing i

    engine_gives :
        (names : List FileName) (w : World) (r : Run ℕ World)
        → (Away w → RunGives Away r)
        → AwayOr names w
        → RunGives (AwayOr names) r
    engine_gives names w r f (inl h) = RunGives-map Away (AwayOr names) r (λ v g. inl g) (f h)
    engine_gives names w (returned total v) f (inr h) = inr h
    engine_gives names w (threw v) f (inr h) = inr h
    engine_gives names w (ended fault) f (inr h) = tt

    piped_engine-leaves :
        (source : Fd) (dests : List Fd) (input_w input_r : Fd) (ps : Pipes World)
        → Away ps.world
        → RunGives Away (piped_engine sys engines dir source dests input_w input_r ps)
    unfolding piped_engine
    piped_engine-leaves source dests input_w input_r ps h = elim (Bool-cases (is_mode dir.mode 3)) [
      | inl e ↦
          rw (e, piped_engine) (leaving.splice_leaves i source dests ps.writes ps.reads ps.world h)
      | inr e ↦
          rw (e, piped_engine)
            (leaving.tee_leaves i source input_w input_r dests ps.writes ps.reads ps.world h)
    ]

    after_piped-leaves :
        (input_w input_r : Fd) (ps : Pipes World) (r : Run ℕ World)
        → RunGives (AwayOr (fifo dir 0 ∷ ps.storage)) r
        → Gives Away (after_piped sys engines dir input_w input_r ps r)
    unfolding after_piped
    after_piped-leaves input_w input_r ps (returned total w) h =
        release-Gone sys dir removing i input_w input_r ps w h
    after_piped-leaves input_w input_r ps (threw w) h =
        release-Gone sys dir removing i input_w input_r ps w h
    after_piped-leaves input_w input_r ps (ended fault) h = tt

    run_piped-leaves :
        (source : Fd) (dests : List Fd) (input_w input_r : Fd) (ps : Pipes World)
        → AwayOr (fifo dir 0 ∷ ps.storage) ps.world
        → Gives Away (run_piped sys engines dir source dests input_w input_r ps)
    unfolding run_piped
    run_piped-leaves source dests input_w input_r ps h =
        let released = release-Gone sys dir removing i input_w input_r ps ps.world h in
        elim (Ending-cases ps.ending) [
          | inr (inr e) ↦ rw (e, run_piped) released
          | inr (inl e) ↦ rw (e, run_piped) released
          | inl e ↦
              rw (e, run_piped)
                (after_piped-leaves input_w input_r ps _ (
                  engine_gives (fifo dir 0 ∷ ps.storage) ps.world _
                    (piped_engine-leaves source dests input_w input_r ps) h))
        ]

    started_pipes :
        (copies : ℕ) (w : World)
        → AwayOr (fifo dir 0 ∷ []) w
        → AwayOr
            (fifo dir 0 ∷ (open_pipes sys copies 1 dir w).storage)
            (open_pipes sys copies 1 dir w).world
    started_pipes copies w (inl h) =
        GoneOr-more sys dir removing i (fifo dir 0) _ _
          (open_pipes-Gone sys dir removing i copies 1 w h)
    started_pipes copies w (inr (inl e)) = inr (inl e)
    started_pipes copies w (inr (inr h)) = absurd h

    pub broadcast_piped-leaves :
        (copies : ℕ) (source : Fd) (dests : List Fd) (w : World)
        → Away w
        → Gives Away
            (broadcast_piped sys engines copies dir source dests (open_pipe sys (fifo dir 0) w))
    unfolding broadcast_piped remove_pipes
    broadcast_piped-leaves copies source dests w h =
        elim (open_pipe-Found sys dir removing i (fifo dir 0) w h) [
          | found_none w' e g ↦ rw e g
          | found_closed w' e g ↦ rw e (remove_pipes-Gone sys dir removing i (fifo dir 0 ∷ []) w' g)
          | found_open fd fd' w' e g ↦ rw e (
              run_piped-leaves source dests fd fd' (open_pipes sys copies 1 dir w')
                (started_pipes copies w' g))
        ]
