-- ===== src/Main/Removed/Whole.antt =====
-- No named pipe is left behind by `main`, however it returns.
use independent_study.Base.{
  ℕ, zero, suc, ◌+◌, ◌≡◌, inl, inr, subst, Bool-cases, Option-cases, false, List, ◌∷◌, some,
  Outcome, Gives, Gives-bind, ok, fail, ℤ, pos, negsuc, is_negative, if◌then◌else◌,
}
use independent_study.Liburing.{Fd}
use independent_study.IoHandle.{Name}
use independent_study.Main.{
  Dir, size_of, FileName, argument, directory, output, fifo, OpenFlags, rdonly, rdwr_create_trunc,
  wronly_create_trunc, Run, returned, threw, ended, System, Engines, is_mode, mode_below, cons_fd,
  open_outputs,
}
use independent_study.Main.Program.{after_plain, dispatch, finish, broadcast_to, with_source, main}
use independent_study.Main.Laws.{Descriptors, Working}
use independent_study.Main.Balance.{main-Done}
use independent_study.Main.Fifos.{RunGives, Removing, Gone, close_handle-Gone, close_handles-Gone}
use independent_study.Main.Removed.{Leaving, broadcast_piped-leaves}

module _ (sys : System) (dir : Dir) (removing : Removing sys dir) (engines : Engines sys.World)
    (leaving : Leaving sys dir removing engines) (i : ℕ) where
  open sys use {World, open_file, create_directories}

  abbrev Away : World → Type 0
  Away = Gone sys dir removing i

  after_plain-leaves : (r : Run ℕ World) → RunGives Away r → Gives Away (after_plain sys engines r)
  unfolding after_plain
  after_plain-leaves (returned total w) h = h
  after_plain-leaves (threw w) h = tt
  after_plain-leaves (ended fault) h = tt

  dispatch-leaves :
      (copies : ℕ) (source : Fd) (dests : List Fd) (w : World)
      → Away w
      → Gives Away (dispatch sys engines copies dir source dests w)
  unfolding dispatch
  dispatch-leaves copies source dests w h = elim (Bool-cases (is_mode dir.mode 1)) [
    | inl e ↦ rw (e, dispatch) (after_plain-leaves _ (leaving.readv_leaves i source dests w h))
    | inr e ↦
        rw (e, dispatch)
          (elim (Bool-cases (is_mode dir.mode 2)) [
            | inl e' ↦
                rw (e', dispatch) (after_plain-leaves _ (leaving.uring_leaves i source dests w h))
            | inr e' ↦
                rw (e', dispatch)
                  (elim (Bool-cases (mode_below dir.mode 3)) [
                    | inl low ↦ rw (low, dispatch) h
                    | inr high ↦
                        rw (high, dispatch)
                          (broadcast_piped-leaves sys dir removing engines leaving i copies source
                            dests w h)
                  ])
          ])
  ]

  finish-leaves :
      (source : Fd) (dests : List Fd) (o : Outcome (ℕ × World))
      → Gives Away o
      → Gives Away (finish sys engines source dests o)
  unfolding finish
  finish-leaves source dests (ok (status, w)) h =
      close_handle-Gone sys dir removing i source _
        (close_handles-Gone sys dir removing i dests w h)
  finish-leaves source dests (fail fault) h = tt

  cons_fd-leaves :
      (fd : Fd) (o : Outcome (List Fd × World)) → Gives Away o → Gives Away (cons_fd sys fd o)
  unfolding cons_fd
  cons_fd-leaves fd (ok (fds, w)) h = h
  cons_fd-leaves fd (fail fault) h = tt

  open_outputs-leaves :
      (left j : ℕ) (ext : Name) (w : World)
      → Away w
      → Gives Away (open_outputs sys left j dir ext w)
  unfolding open_outputs
  open_outputs-leaves zero j ext w h = h
  open_outputs-leaves (suc left) j ext w h =
      let flags = if mode_below dir.mode 3 then rdwr_create_trunc else wronly_create_trunc in
      let fd = (open_file (output dir j ext) flags w).0 in
      let w' = (open_file (output dir j ext) flags w).1 in
      elim (Bool-cases (is_negative fd)) [
        | inl e ↦ rw (e, open_outputs) tt
        | inr e ↦
            rw (e, open_outputs)
              (cons_fd-leaves fd _ (
                open_outputs-leaves left (j + 1) ext w'
                  (removing.open_keeps i (output dir j ext) flags w h)))
      ]

  pub broadcast_to-leaves :
      (copies : ℤ) (ext : Name) (source : Fd) (w : World)
      → Away w
      → Gives Away
          (broadcast_to sys engines copies dir ext source (create_directories (directory dir) w))
  unfolding broadcast_to
  broadcast_to-leaves (negsuc n) ext source w h = tt
  broadcast_to-leaves (pos copies) ext source w h =
      elim (Option-cases (create_directories (directory dir) w)) [
        | inl e ↦ rw e tt
        | inr (w', e) ↦ rw e (
            Gives-bind Away (open_outputs sys copies 0 dir ext w') _
              (open_outputs-leaves copies 0 ext w'
                (removing.create_keeps i (directory dir) w w' e h))
              (λ dests v g. finish-leaves source dests _ (dispatch-leaves copies source dests v g)))
      ]

-- The directory that `main` works in.
abbrev pub main_dir : (sys : System) → Name → Name → Dir
main_dir sys mode copies = record { mode = sys.atoi mode; size = size_of (sys.atoi copies) }

module _ (sys : System) (descriptors : Descriptors sys) (engines : Engines sys.World)
    (working : Working sys descriptors engines)
    (creates : (name : FileName) (w : sys.World)
      → (w' : sys.World) × (sys.create_directories name w ≡ some w'))
    (never_fails : (dir : Dir) (i : ℕ) (ext : Name) (flags : OpenFlags) (w : sys.World)
      → is_negative (sys.open_file (output dir i ext) flags w).0 ≡ false)
    (mode copies : Name) (removing : Removing sys (main_dir sys mode copies))
    (leaving : Leaving sys (main_dir sys mode copies) removing engines) where
  open sys use {World, open_file, atoi, extension}

  main-leaves :
      (i : ℕ) (program input : Name) (rest : List Name) (w : World)
      → removing.Absent (fifo (main_dir sys mode copies) i) w
      → Gives
          (removing.Absent (fifo (main_dir sys mode copies) i))
          (main sys engines (program ∷ mode ∷ input ∷ copies ∷ rest) w)
  unfolding main with_source
  main-leaves i program input rest w h =
      let opened_keeps = removing.open_keeps i (argument input) rdonly w h in
      elim (Bool-cases (is_negative (open_file (argument input) rdonly w).0)) [
        | inl e ↦ rw (e, with_source) opened_keeps
        | inr e ↦
            rw (e, with_source)
              (broadcast_to-leaves sys (main_dir sys mode copies) removing engines leaving i
                (atoi copies) (extension input) _ _ opened_keeps)
      ]

  -- Where the number of outputs is not negative, the input, the directory and all outputs can be
  -- opened or made, pipes are removed when asked, and the engines make none and return or, in modes
  -- above 2, throw, with the descriptors that were open, `main` returns, whatever becomes of the
  -- pipes: no named pipe is there afterwards that was not there before.
  pub main_removes :
      (program input : Name) (rest : List Name) (n : ℕ) (w : World)
      → atoi copies ≡ pos n
      → is_negative (open_file (argument input) rdonly w).0 ≡ false
      → (status : ℕ) × (w' : World) × (main sys engines (program ∷ mode ∷ input ∷ copies ∷ rest) w
          ≡ ok (status, w'))
        × ((i : ℕ)
            → removing.Absent (fifo (main_dir sys mode copies) i) w
            → removing.Absent (fifo (main_dir sys mode copies) i) w')
  main_removes program input rest n w number there =
      let (status, w', e, _, _) =
        main-Done sys descriptors engines working creates never_fails program mode input copies rest
          n w number there in
      (
        status,
        w',
        e,
        λ i h.
            subst (Gives (removing.Absent (fifo (main_dir sys mode copies) i))) e
              (main-leaves i program input rest w h),
      )
