-- ===== src/Main/Piped.antt =====
-- The `try` block of `main`: its status, and the descriptors that are open behind it.
use independent_study.Base.{
  ℕ, ◌+◌, ◌≡◌, ap, ◌∙◌, refl, false, Bool-cases, inl, inr, ◌⊎◌, List, arith,
}
use independent_study.Liburing.{Fd}
use independent_study.Main.{
  eio, ebadfd, Dir, fifo, System, Engines, is_mode, mode_below, Ending, complete, unopened, unmade,
  Pipes, open_pipe, open_pipes, release,
}
use independent_study.Main.Program.{after_piped, piped_engine, run_piped, broadcast_piped}
use independent_study.Main.Laws.{Done, gain, Descriptors, Balanced, Returns, Throws, Working}
use independent_study.Main.Closing.{
  is_unmade, is_unopened, is_opened, open_pipe_cases, pipes_gain, open_pipes-held, release-held,
}

pub Ending-cases : (e : Ending) → (e ≡ complete) ⊎ ((e ≡ unopened) ⊎ (e ≡ unmade))
Ending-cases complete = inl refl
Ending-cases unopened = inr (inl refl)
Ending-cases unmade = inr (inr refl)

module _ (sys : System) (descriptors : Descriptors sys) (engines : Engines sys.World)
    (working : Working sys descriptors engines) where
  open sys use {World, open_file, unlink, create_directories, atoi, extension}
  open descriptors use {held, open_holds, unlink_holds, create_holds}
  open working use {readv_returns, uring_returns, splice_ends, tee_ends}

  piped_engine_ends :
      (dir : Dir) (source : Fd) (dests : List Fd) (input_w input_r : Fd) (ps : Pipes World)
      → Returns sys descriptors ps.world
          (piped_engine sys engines dir source dests input_w input_r ps)
        ⊎ Throws sys descriptors ps.world
            (piped_engine sys engines dir source dests input_w input_r ps)
  unfolding piped_engine
  piped_engine_ends dir source dests input_w input_r ps = elim (Bool-cases (is_mode dir.mode 3)) [
    | inl e ↦ rw (e, piped_engine) (splice_ends source dests ps.writes ps.reads ps.world)
    | inr e ↦
        rw (e, piped_engine) (tee_ends source input_w input_r dests ps.writes ps.reads ps.world)
  ]

  module _ (dir : Dir) (source : Fd) (dests : List Fd) (piped : mode_below dir.mode 3 ≡ false) where
    released :
        (w : World) (input_w input_r : Fd) (ps : Pipes World) (v : World)
        → ((q : ℕ)
            → held q v
              ≡ held q w + (gain q input_w + gain q input_r + pipes_gain sys descriptors q ps))
        → Balanced sys descriptors w (release sys dir input_w input_r ps v)
    released w input_w input_r ps v h q = omega (
      arith,
      release-held sys descriptors dir input_w input_r ps v (λ r. omega (arith, h r)) q,
      h q,
    )

    run_piped_lem :
        (w : World) (input_w input_r : Fd) (ps : Pipes World)
        → ((q : ℕ)
            → held q ps.world
              ≡ held q w + (gain q input_w + gain q input_r + pipes_gain sys descriptors q ps))
        → Done sys descriptors dir.mode w
            (run_piped sys engines dir source dests input_w input_r ps)
    unfolding run_piped after_piped
    run_piped_lem w input_w input_r ps h = elim (Ending-cases ps.ending) [
      | inr (inr e) ↦ (
        eio,
        release sys dir input_w input_r ps ps.world,
        rw (e, run_piped) refl,
        inr (piped, inl refl),
        released w input_w input_r ps ps.world h,
      )
      | inr (inl e) ↦ (
        ebadfd,
        release sys dir input_w input_r ps ps.world,
        rw (e, run_piped) refl,
        inr (piped, inr refl),
        released w input_w input_r ps ps.world h,
      )
      | inl e ↦ elim (piped_engine_ends dir source dests input_w input_r ps) [
        | inl (total, v, r, b) ↦ (
          0,
          release sys dir input_w input_r ps v,
          rw (e, run_piped) (ap (after_piped sys engines dir input_w input_r ps) r),
          inl refl,
          released w input_w input_r ps v (λ q. b q ∙ h q),
        )
        | inr (v, r, b) ↦ (
          eio,
          release sys dir input_w input_r ps v,
          rw (e, run_piped) (ap (after_piped sys engines dir input_w input_r ps) r),
          inr (piped, inl refl),
          released w input_w input_r ps v (λ q. b q ∙ h q),
        )
      ]
    ]

    pub broadcast_piped_lem :
        (copies : ℕ) (w : World)
        → Done sys descriptors dir.mode w
            (broadcast_piped sys engines copies dir source dests (open_pipe sys (fifo dir 0) w))
    unfolding broadcast_piped
    broadcast_piped_lem copies w = elim (open_pipe_cases sys descriptors (fifo dir 0) w) [
      | is_unmade v e b ↦ (
        eio,
        v,
        ap (broadcast_piped sys engines copies dir source dests) e,
        inr (piped, inl refl),
        b,
      )
      | is_unopened v e b ↦ (
        ebadfd,
        unlink (fifo dir 0) v,
        ap (broadcast_piped sys engines copies dir source dests) e,
        inr (piped, inr refl),
        λ q. unlink_holds (fifo dir 0) v q ∙ b q,
      )
      | is_opened input_w input_r v e h ↦
          let (n, w', r, s, b) =
            run_piped_lem w input_w input_r (open_pipes sys copies 1 dir v)
              (λ q. omega (arith, h q, open_pipes-held sys descriptors copies 1 dir v q)) in
          (n, w', ap (broadcast_piped sys engines copies dir source dests) e ∙ r, s, b)
    ]
