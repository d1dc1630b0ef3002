-- ===== src/Main/Balance.antt =====
-- `main` from its arguments to its exit status, and the descriptors that are open behind it.
use independent_study.Base.{
  ℕ, ◌+◌, ◌≡◌, ap, ◌∙◌, refl, false, Bool-cases, inl, inr, List, ◌∷◌, pos, Outcome, ℤ, is_negative,
  arith, some,
}
use independent_study.Liburing.{Fd}
use independent_study.IoHandle.{Name}
use independent_study.Main.{
  Dir, size_of, FileName, argument, directory, output, OpenFlags, rdonly, System, Engines, Run,
  is_mode, mode_below, close_handle, close_handles,
}
use independent_study.Main.Program.{after_plain, dispatch, finish, broadcast_to, with_source, main}
use independent_study.Main.Laws.{Done, gain, gains, Descriptors, Returns, Working}
use independent_study.Main.Closing.{close_handle-held, close_handles-held, open_outputs_lem}
use independent_study.Main.Piped.{broadcast_piped_lem}

module _ (sys : System) (descriptors : Descriptors sys) (engines : Engines sys.World)
    (working : Working sys descriptors engines) where
  open sys use {World, open_file, create_directories, atoi, extension}
  open descriptors use {held, open_holds, create_holds}
  open working use {readv_returns, uring_returns}

  after_plain-Done :
      (mode : ℤ) (w : World) (r : Run ℕ World)
      → Returns sys descriptors w r
      → Done sys descriptors mode w (after_plain sys engines r)
  unfolding after_plain
  after_plain-Done mode w r (total, w', e, b) = (0, w', ap (after_plain sys engines) e, inl refl, b)

  dispatch-Done :
      (copies : ℕ) (dir : Dir) (source : Fd) (dests : List Fd) (w : World)
      → Done sys descriptors dir.mode w (dispatch sys engines copies dir source dests w)
  unfolding dispatch
  dispatch-Done copies dir source dests w = elim (Bool-cases (is_mode dir.mode 1)) [
    | inl e ↦ rw (e, dispatch) (after_plain-Done dir.mode w _ (readv_returns source dests w))
    | inr e ↦
        rw (e, dispatch)
          (elim (Bool-cases (is_mode dir.mode 2)) [
            | inl e' ↦
                rw (e', dispatch) (after_plain-Done dir.mode w _ (uring_returns source dests w))
            | inr e' ↦
                rw (e', dispatch)
                  (elim (Bool-cases (mode_below dir.mode 3)) [
                    | inl low ↦ rw (low, dispatch) (0, w, refl, inl refl, λ q. refl)
                    | inr high ↦
                        let (n, w', r, s, b) =
                          broadcast_piped_lem sys descriptors engines working dir source dests high
                            copies w in
                        (n, w', rw (high, dispatch) r, s, b)
                  ])
          ])
  ]

  -- The handles of the source and of the outputs go behind the engine.
  finish-Done :
      (mode : ℤ) (source : Fd) (dests : List Fd) (w v : World) (o : Outcome (ℕ × World))
      → ((q : ℕ) → held q v ≡ held q w + (gain q source + gains q dests))
      → Done sys descriptors mode v o
      → Done sys descriptors mode w (finish sys engines source dests o)
  unfolding finish
  finish-Done mode source dests w v o h (n, v', r, s, b) =
      let closed = close_handles sys dests v' in
      let first = close_handles-held sys descriptors dests v' (λ q. omega (arith, b q, h q)) in
      let second =
        close_handle-held sys descriptors source closed (λ q. omega (arith, first q, b q, h q)) in
      (
        n,
        close_handle sys source closed,
        ap (finish sys engines source dests) r,
        s,
        λ q. omega (arith, first q, second q, b q, h q),
      )

  module _
      (creates : (name : FileName) (w : World)
        → (w' : World) × (create_directories name w ≡ some w'))
      (never_fails : (dir : Dir) (i : ℕ) (ext : Name) (flags : OpenFlags) (w : World)
        → is_negative (open_file (output dir i ext) flags w).0 ≡ false) where
    broadcast_to-Done :
        (copies : ℕ) (dir : Dir) (ext : Name) (source : Fd) (w v : World)
        → ((q : ℕ) → held q v ≡ held q w + gain q source)
        → Done sys descriptors dir.mode w (
            broadcast_to sys engines
              (pos copies)
              dir
              ext
              source
              (create_directories (directory dir) v))
    unfolding broadcast_to
    broadcast_to-Done copies dir ext source w v h =
        let (v1, e) = creates (directory dir) v in
        let outs = open_outputs_lem sys descriptors never_fails copies 0 dir ext v1 in
        let (n, w', r, s, b) =
          finish-Done dir.mode source outs.fds w outs.world _
            (λ q. omega (arith, outs.holds q, create_holds (directory dir) v v1 q e, h q))
            (dispatch-Done copies dir source outs.fds outs.world) in
        (
          n,
          w',
          ap (broadcast_to sys engines (pos copies) dir ext source) e
              ∙ rw (outs.result, broadcast_to) r,
          s,
          b,
        )

    -- Where the number of outputs is not negative, the input, the directory and all outputs can be
    -- opened or made, and the engines return or, in modes above 2, throw, with the descriptors that
    -- were open, `main` returns, whatever becomes of the pipes: with 0, or in a mode above 2 also
    -- with EIO or EBADFD, and with exactly those descriptors open that were open before.
    pub main-Done :
        (program mode input copies : Name) (rest : List Name) (n : ℕ) (w : World)
        → atoi copies ≡ pos n
        → is_negative (open_file (argument input) rdonly w).0 ≡ false
        → Done sys descriptors
            (atoi mode)
            w
            (main sys engines (program ∷ mode ∷ input ∷ copies ∷ rest) w)
    unfolding main with_source
    main-Done program mode input copies rest n w number there =
        let fd = (open_file (argument input) rdonly w).0 in
        let w1 = (open_file (argument input) rdonly w).1 in
        let dir : Dir = record { mode = atoi mode; size = size_of (atoi copies) } in
        let (status, w', r, s, b) =
          broadcast_to-Done n dir (extension input) fd w w1
            (open_holds (argument input) rdonly w) in
        (
          status,
          w',
          rw (there, with_source)
              (ap
                  (λ c.
                    broadcast_to sys engines c dir (extension input) fd
                      (create_directories (directory dir) w1))
                  number
                ∙ r),
          s,
          b,
        )
