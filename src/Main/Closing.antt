-- ===== src/Main/Closing.antt =====
-- What the opening and the closing of handles and pipes do with the open descriptors.
use independent_study.Base.{
  ℕ, zero, suc, ◌+◌, ◌≤◌, ◌≡◌, ap, ◌∙◌, refl, Bool, true, false, Bool-cases, if◌then◌else◌, inl,
  inr, List, [], ◌∷◌, pos, negsuc, ok, is_negative, arith, ◌*◌,
}
use independent_study.Liburing.{Fd}
use independent_study.IoHandle.{Name, is_assigned}
use independent_study.Main.{
  Dir, FileName, OpenFlags, rdwr_create_trunc, wronly_create_trunc, mode_below, System, Opening,
  no_pipe, not_open, opened, Pipes, output, fifo, cons_fd, open_outputs, rdwr, managed_pipe,
  open_ends, open_pipe, add_pipe, open_pipes, close_handle, close_handles, remove_pipes, release,
}
use independent_study.Main.Laws.{gain, gains, Descriptors, Balanced}

not_assigned : (fd : Fd) (q : ℕ) → is_assigned fd ≡ false → gain q fd ≡ 0
not_assigned (pos n) q e = cc
not_assigned (negsuc n) q e = refl

module _ (sys : System) (descriptors : Descriptors sys) where
  open sys use {World, open_file, dup, set_pipe_size, mkfifo, unlink}
  open descriptors use {
    held, open_holds, dup_holds, close_holds, set_pipe_size_holds, mkfifo_holds, unlink_holds,
  }

  pub close_handle-held :
      (fd : Fd) (w : World)
      → ((q : ℕ) → gain q fd ≤ held q w)
      → (q : ℕ) → held q (close_handle sys fd w) + gain q fd ≡ held q w
  unfolding close_handle
  close_handle-held fd w owned q = elim (Bool-cases (is_assigned fd)) [
    | inl e ↦ rw (e, close_handle) (close_holds fd w owned q)
    | inr e ↦ rw (e, close_handle) (omega (arith, not_assigned fd q e))
  ]

  pub close_handles-held :
      (fds : List Fd) (w : World)
      → ((q : ℕ) → gains q fds ≤ held q w)
      → (q : ℕ) → held q (close_handles sys fds w) + gains q fds ≡ held q w
  unfolding close_handles
  close_handles-held [] w owned q = omega arith
  close_handles-held (fd ∷ fds) w owned q =
      let one = close_handle-held fd w (λ r. omega (arith, owned r)) in
      omega (
        arith,
        one q,
        close_handles-held fds (close_handle sys fd w) (λ r. omega (arith, owned r, one r)) q,
      )

  pub remove_pipes-held :
      (names : List FileName) (w : World) (q : ℕ) → held q (remove_pipes sys names w) ≡ held q w
  unfolding remove_pipes
  remove_pipes-held [] w q = refl
  remove_pipes-held (name ∷ names) w q =
      remove_pipes-held names (unlink name w) q ∙ unlink_holds name w q

  abbrev opening_world : Opening World → World
  opening_world (no_pipe w) = w
  opening_world (not_open w) = w
  opening_world (opened fd fd' w) = w

  abbrev opening_gain : ℕ → Opening World → ℕ
  opening_gain q (no_pipe w) = 0
  opening_gain q (not_open w) = 0
  opening_gain q (opened fd fd' w) = gain q fd + gain q fd'

  negative_gain : (fd : Fd) (q : ℕ) → is_negative fd ≡ true → gain q fd ≡ 0
  negative_gain (pos n) q e = cc
  negative_gain (negsuc n) q e = refl

  open_ends-held :
      (name : FileName) (w : World) (q : ℕ)
      → held q (opening_world (open_ends sys name (true, w)))
        ≡ held q w + opening_gain q (open_ends sys name (true, w))
  unfolding open_ends
  open_ends-held name w q =
      let fd = (open_file name rdwr w).0 in
      let w1 = (open_file name rdwr w).1 in
      let w2 = set_pipe_size fd (1024 * 1024) w1 in
      elim (Bool-cases (is_negative fd)) [
        | inl e ↦ rw e (omega (arith, open_holds name rdwr w q, negative_gain fd q e))
        | inr e ↦ rw e (
            omega (
              arith,
              open_holds name rdwr w q,
              set_pipe_size_holds fd (1024 * 1024) w1 q,
              dup_holds fd w2 q,
              set_pipe_size_holds (dup fd w2).0 (1024 * 1024) (dup fd w2).1 q,
            ))
      ]

  unmade_held :
      (name : FileName) (w : World) (q : ℕ)
      → held q (opening_world (open_ends sys name (false, w)))
        ≡ held q w + opening_gain q (open_ends sys name (false, w))
  unfolding open_ends
  unmade_held name w q = omega arith

  either_held :
      (name : FileName) (b : Bool) (w : World) (q : ℕ)
      → held q (opening_world (open_ends sys name (b, w)))
        ≡ held q w + opening_gain q (open_ends sys name (b, w))
  either_held name true w q = open_ends-held name w q
  either_held name false w q = unmade_held name w q

  pub open_pipe-held :
      (name : FileName) (w : World) (q : ℕ)
      → held q (opening_world (open_pipe sys name w))
        ≡ held q w + opening_gain q (open_pipe sys name w)
  unfolding open_pipe managed_pipe
  open_pipe-held name w q =
      either_held name (managed_pipe sys name w).0 (mkfifo name w).1 q
      ∙ ap (λ n. n + opening_gain q (open_pipe sys name w)) (mkfifo_holds name w q)

  -- How the opening of a pipe ends, with what it opened.
  pub data Opened (w : World) (o : Opening World) : Type 0 where
    is_unmade : (w' : World) → o ≡ no_pipe w' → Balanced sys descriptors w w' → Opened w o
    is_unopened : (w' : World) → o ≡ not_open w' → Balanced sys descriptors w w' → Opened w o
    is_opened :
        (fd fd' : Fd) (w' : World)
        → o ≡ opened fd fd' w'
        → ((q : ℕ) → held q w' ≡ held q w + (gain q fd + gain q fd'))
        → Opened w o

  opening_cases :
      (w : World) (o : Opening World)
      → ((q : ℕ) → held q (opening_world o) ≡ held q w + opening_gain q o)
      → Opened w o
  opening_cases w (no_pipe w') h = is_unmade w' refl (λ q. omega (arith, h q))
  opening_cases w (not_open w') h = is_unopened w' refl (λ q. omega (arith, h q))
  opening_cases w (opened fd fd' w') h = is_opened fd fd' w' refl h

  pub open_pipe_cases : (name : FileName) (w : World) → Opened w (open_pipe sys name w)
  open_pipe_cases name w = opening_cases w (open_pipe sys name w) (open_pipe-held name w)

  abbrev pub pipes_gain : ℕ → Pipes World → ℕ
  pipes_gain q ps = gains q ps.writes + gains q ps.reads

  pub open_pipes-held :
      (left i : ℕ) (dir : Dir) (w : World) (q : ℕ)
      → held q (open_pipes sys left i dir w).world
        ≡ held q w + pipes_gain q (open_pipes sys left i dir w)
  unfolding open_pipes add_pipe
  open_pipes-held zero i dir w q = omega arith
  open_pipes-held (suc left) i dir w q = elim (open_pipe_cases (fifo dir i) w) [
    | is_unmade w' e b ↦ rw (e, open_pipes) (omega (arith, b q))
    | is_unopened w' e b ↦ rw (e, open_pipes) (omega (arith, b q))
    | is_opened fd fd' w' e h ↦
        rw (e, open_pipes) (omega (arith, h q, open_pipes-held left (i + 1) dir w' q))
  ]

  pub release-held :
      (dir : Dir) (input_w input_r : Fd) (ps : Pipes World) (w : World)
      → ((q : ℕ) → gain q input_w + gain q input_r + pipes_gain q ps ≤ held q w)
      → (q : ℕ)
      → held q (release sys dir input_w input_r ps w)
          + (gain q input_w + gain q input_r + pipes_gain q ps)
        ≡ held q w
  unfolding release
  release-held dir input_w input_r ps w owned q =
      let w1 = close_handles sys ps.reads w in
      let w2 = close_handles sys ps.writes w1 in
      let w3 = close_handle sys input_r w2 in
      let first = close_handles-held ps.reads w (λ r. omega (arith, owned r)) in
      let second = close_handles-held ps.writes w1 (λ r. omega (arith, owned r, first r)) in
      let third = close_handle-held input_r w2 (λ r. omega (arith, owned r, first r, second r)) in
      let fourth =
        close_handle-held input_w w3 (λ r. omega (arith, owned r, first r, second r, third r)) in
      omega (
        arith,
        remove_pipes-held (fifo dir 0 ∷ ps.storage) (close_handle sys input_w w3) q,
        first q,
        second q,
        third q,
        fourth q,
      )

  -- The outputs, where all of them can be opened.
  pub record Outputs (left i : ℕ) (dir : Dir) (ext : Name) (w : World) : Type 0 where
    pub fds : List Fd
    pub world : World
    pub result : open_outputs sys left i dir ext w ≡ ok (fds, world)
    pub holds : (q : ℕ) → held q world ≡ held q w + gains q fds

  pub open_outputs_lem :
      (never_fails : (dir : Dir) (i : ℕ) (ext : Name) (flags : OpenFlags) (w : World)
        → is_negative (open_file (output dir i ext) flags w).0 ≡ false)
      (left i : ℕ) (dir : Dir) (ext : Name) (w : World)
      → Outputs left i dir ext w
  unfolding open_outputs cons_fd
  open_outputs_lem never_fails zero i dir ext w = record {
    fds = [];
    world = w;
    result = refl;
    holds = λ q. omega arith;
  }
  open_outputs_lem never_fails (suc left) i dir ext w =
      let flags = if mode_below dir.mode 3 then rdwr_create_trunc else wronly_create_trunc in
      let fd = (open_file (output dir i ext) flags w).0 in
      let w' = (open_file (output dir i ext) flags w).1 in
      let rest = open_outputs_lem never_fails left (i + 1) dir ext w' in
      record {
        fds = fd ∷ rest.fds;
        world = rest.world;
        result = rw (never_fails dir i ext flags w, open_outputs) (ap (cons_fd sys fd) rest.result);
        holds = λ q. omega (arith, rest.holds q, open_holds (output dir i ext) flags w q);
      }
