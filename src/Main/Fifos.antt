-- ===== src/Main/Fifos.antt =====
-- What becomes of the named pipes: what the manuals promise of the system calls about them, and the
-- pipes of the `try` block of `main`.
use independent_study.Base.{
  ℕ, zero, suc, ◌+◌, ◌*◌, ◌≡◌, ◌⊎◌, inl, inr, refl, subst, Bool, true, false, Bool-cases, List, [],
  ◌∷◌, none, some, is_negative,
}
use independent_study.Liburing.{Fd}
use independent_study.IoHandle.{is_assigned}
use independent_study.Main.{
  Dir, FileName, fifo, OpenFlags, rdwr, Run, returned, threw, ended, System, Pipes, Opening,
  no_pipe, not_open, opened, managed_pipe, open_ends, open_pipe, add_pipe, open_pipes, close_handle,
  close_handles, remove_pipes, release,
}

-- Where a run returns or throws, the property holds of the state behind it.
abbrev pub RunGives : {A W : Type 0} → (W → Type 0) → Run A W → Type 0
RunGives P (returned a w) = P w
RunGives P (threw w) = P w
RunGives P (ended fault) = Unit

pub RunGives-map :
    {A W : Type 0} (P Q : W → Type 0) (r : Run A W)
    → ((w : W) → P w → Q w)
    → RunGives P r
    → RunGives Q r
RunGives-map P Q (returned a w) f h = f w h
RunGives-map P Q (threw w) f h = f w h
RunGives-map P Q (ended fault) f h = tt

-- A name is one of a list.
abbrev pub Among : FileName → List FileName → Type 0
Among name [] = ⊥
Among name (other ∷ names) = (name ≡ other) ⊎ Among name names

module _ (sys : System) where
  open sys use {World, open_file, dup, close, set_pipe_size, mkfifo, unlink, create_directories}

  -- `Absent` says that there is no named pipe of a name. Only `mkfifo` makes a pipe, and only where it does
  -- not fail; a removal succeeds.
  pub record Removing (dir : Dir) : Type 1 where
    pub Absent : FileName → World → Type 0
    pub open_keeps :
        (i : ℕ) (name : FileName) (flags : OpenFlags) (w : World)
        → Absent (fifo dir i) w
        → Absent (fifo dir i) (open_file name flags w).1
    pub dup_keeps :
        (i : ℕ) (fd : Fd) (w : World) → Absent (fifo dir i) w → Absent (fifo dir i) (dup fd w).1
    pub close_keeps :
        (i : ℕ) (fd : Fd) (w : World) → Absent (fifo dir i) w → Absent (fifo dir i) (close fd w)
    pub set_pipe_size_keeps :
        (i : ℕ) (fd : Fd) (bytes : ℕ) (w : World)
        → Absent (fifo dir i) w
        → Absent (fifo dir i) (set_pipe_size fd bytes w)
    pub mkfifo_makes :
        (i : ℕ) (name : FileName) (w : World)
        → Absent (fifo dir i) w
        → Absent (fifo dir i) (mkfifo name w).1 ⊎ ((fifo dir i ≡ name) × ((mkfifo name w).0 ≡ none))
    pub unlink_keeps :
        (i : ℕ) (name : FileName) (w : World)
        → Absent (fifo dir i) w
        → Absent (fifo dir i) (unlink name w)
    pub unlink_removes : (i : ℕ) (w : World) → Absent (fifo dir i) (unlink (fifo dir i) w)
    pub create_keeps :
        (i : ℕ) (name : FileName) (w w' : World)
        → create_directories name w ≡ some w'
        → Absent (fifo dir i) w
        → Absent (fifo dir i) w'

  module _ (dir : Dir) (removing : Removing dir) (i : ℕ) where
    open removing use {
      Absent, open_keeps, dup_keeps, close_keeps, set_pipe_size_keeps, mkfifo_makes, unlink_keeps,
      unlink_removes,
    }

    abbrev pub Gone : World → Type 0
    Gone w = Absent (fifo dir i) w

    -- The pipe is absent, or one of those that are still to be removed.
    abbrev pub GoneOr : List FileName → World → Type 0
    GoneOr names w = Gone w ⊎ Among (fifo dir i) names

    pub GoneOr-map :
        (names : List FileName) (w w' : World)
        → (Gone w → Gone w')
        → GoneOr names w
        → GoneOr names w'
    GoneOr-map names w w' f (inl h) = inl (f h)
    GoneOr-map names w w' f (inr h) = inr h

    pub GoneOr-more :
        (name : FileName) (names : List FileName) (w : World)
        → GoneOr names w
        → GoneOr (name ∷ names) w
    GoneOr-more name names w (inl h) = inl h
    GoneOr-more name names w (inr h) = inr (inr h)

    pub remove_pipes-Gone :
        (names : List FileName) (w : World) → GoneOr names w → Gone (remove_pipes sys names w)
    unfolding remove_pipes
    remove_pipes-Gone [] w (inl h) = h
    remove_pipes-Gone [] w (inr h) = absurd h
    remove_pipes-Gone (name ∷ names) w (inl h) =
        remove_pipes-Gone names (unlink name w) (inl (unlink_keeps i name w h))
    remove_pipes-Gone (name ∷ names) w (inr (inl e)) =
        remove_pipes-Gone names (unlink name w)
          (inl (subst (λ n. Gone (unlink n w)) e (unlink_removes i w)))
    remove_pipes-Gone (name ∷ names) w (inr (inr h)) =
        remove_pipes-Gone names (unlink name w) (inr h)

    pub close_handle-Gone : (fd : Fd) (w : World) → Gone w → Gone (close_handle sys fd w)
    unfolding close_handle
    close_handle-Gone fd w h = elim (Bool-cases (is_assigned fd)) [
      | inl e ↦ rw (e, close_handle) (close_keeps i fd w h)
      | inr e ↦ rw (e, close_handle) h
    ]

    pub close_handles-Gone : (fds : List Fd) (w : World) → Gone w → Gone (close_handles sys fds w)
    unfolding close_handles
    close_handles-Gone [] w h = h
    close_handles-Gone (fd ∷ fds) w h =
        close_handles-Gone fds (close_handle sys fd w) (close_handle-Gone fd w h)

    pub release-Gone :
        (input_w input_r : Fd) (ps : Pipes World) (w : World)
        → GoneOr (fifo dir 0 ∷ ps.storage) w
        → Gone (release sys dir input_w input_r ps w)
    unfolding release
    release-Gone input_w input_r ps w h =
        let names = fifo dir 0 ∷ ps.storage in
        let w1 = close_handles sys ps.reads w in
        let w2 = close_handles sys ps.writes w1 in
        let w3 = close_handle sys input_r w2 in
        let w4 = close_handle sys input_w w3 in
        remove_pipes-Gone names w4 (
          GoneOr-map names w w4
            (λ g. close_handle-Gone input_w w3 (
              close_handle-Gone input_r w2
                (close_handles-Gone ps.writes w1 (close_handles-Gone ps.reads w g))))
            h)

    -- How a pipe comes to be open.
    pub data Found (name : FileName) (o : Opening World) : Type 0 where
      found_none : (w : World) → o ≡ no_pipe w → Gone w → Found name o
      found_closed : (w : World) → o ≡ not_open w → GoneOr (name ∷ []) w → Found name o
      found_open :
          (fd fd' : Fd) (w : World) → o ≡ opened fd fd' w → GoneOr (name ∷ []) w → Found name o

    open_ends-Found :
        (name : FileName) (w : World)
        → GoneOr (name ∷ []) w
        → Found name (open_ends sys name (true, w))
    unfolding open_ends
    open_ends-Found name w h =
        let fd = (open_file name rdwr w).0 in
        let w1 = (open_file name rdwr w).1 in
        let w2 = set_pipe_size fd (1024 * 1024) w1 in
        let fd' = (dup fd w2).0 in
        let w3 = (dup fd w2).1 in
        let w4 = set_pipe_size fd' (1024 * 1024) w3 in
        let first : GoneOr (name ∷ []) w1 =
          GoneOr-map (name ∷ []) w w1 (open_keeps i name rdwr w) h in
        elim (Bool-cases (is_negative fd)) [
          | inl e ↦ rw e (found_closed w1 refl first)
          | inr e ↦ rw e (
              found_open fd fd' w4 refl (
                GoneOr-map (name ∷ []) w1 w4
                  (λ g.
                    set_pipe_size_keeps i fd' (1024 * 1024) w3
                      (dup_keeps i fd w2 (set_pipe_size_keeps i fd (1024 * 1024) w1 g)))
                  first))
        ]

    open_ends_cases :
        (name : FileName) (made : Bool) (w : World)
        → (made ≡ false → Gone w)
        → GoneOr (name ∷ []) w
        → Found name (open_ends sys name (made, w))
    unfolding open_ends
    open_ends_cases name true w g h = open_ends-Found name w h
    open_ends_cases name false w g h = found_none w refl (g refl)

    pub open_pipe-Found : (name : FileName) (w : World) → Gone w → Found name (open_pipe sys name w)
    unfolding open_pipe managed_pipe
    open_pipe-Found name w h = elim (mkfifo_makes i name w h) [
      | inl g ↦ open_ends_cases name (managed_pipe sys name w).0 (mkfifo name w).1 (λ e. g) (inl g)
      | inr (same, succeeded) ↦
          open_ends_cases name (managed_pipe sys name w).0 (mkfifo name w).1
            (λ e. let yes : (managed_pipe sys name w).0 ≡ true = rw succeeded refl in cc)
            (inr (inl same))
    ]

    pub open_pipes-Gone :
        (left j : ℕ) (w : World)
        → Gone w
        → GoneOr (open_pipes sys left j dir w).storage (open_pipes sys left j dir w).world
    unfolding open_pipes add_pipe
    open_pipes-Gone zero j w h = inl h
    open_pipes-Gone (suc left) j w h = elim (open_pipe-Found (fifo dir j) w h) [
      | found_none w' e g ↦ rw (e, open_pipes) (inl g)
      | found_closed w' e g ↦ rw (e, open_pipes) g
      | found_open fd fd' w' e (inl g) ↦
          rw (e, open_pipes) (GoneOr-more (fifo dir j) _ _ (open_pipes-Gone left (j + 1) w' g))
      | found_open fd fd' w' e (inr (inl same)) ↦ rw (e, open_pipes) (inr (inl same))
      | found_open fd fd' w' e (inr (inr h')) ↦ absurd h'
    ]
