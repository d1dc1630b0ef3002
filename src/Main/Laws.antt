-- ===== src/Main/Laws.antt =====
-- What the manuals promise of the system calls about open descriptors, and what the engines keep.
use independent_study.Base.{
  ℕ, ◌+◌, ◌≤◌, ◌≡◌, ◌==◌, ◌⊎◌, if◌then◌else◌, List, some, ℤ, false, Outcome, ok, pos, negsuc,
}
use independent_study.Base.Sums.{weigh}
use independent_study.Liburing.{Fd}
use independent_study.Main.{
  FileName, OpenFlags, System, Engines, Run, returned, threw, eio, ebadfd, mode_below,
}

-- Whether a descriptor is the one with number q, as a number; a negative one is none.
abbrev pub gain : ℕ → Fd → ℕ
gain q (pos d) = if d == q then 1 else 0
gain q (negsuc n) = 0

abbrev pub gains : ℕ → List Fd → ℕ
gains q = weigh (gain q)

-- The status is 0, or in a mode above 2 also EIO or EBADFD.
abbrev pub Status : ℤ → ℕ → Type 0
Status mode n = (n ≡ 0) ⊎ ((mode_below mode 3 ≡ false) × ((n ≡ eio) ⊎ (n ≡ ebadfd)))

module _ (sys : System) where
  open sys use {World, open_file, dup, close, set_pipe_size, mkfifo, unlink, create_directories}

  -- `held q` is 1 where the descriptor with number q is open, and else 0.
  pub record Descriptors : Type 0 where
    pub held : ℕ → World → ℕ
    pub open_holds :
        (name : FileName) (flags : OpenFlags) (w : World) (q : ℕ)
        → held q (open_file name flags w).1 ≡ held q w + gain q (open_file name flags w).0
    pub dup_holds :
        (fd : Fd) (w : World) (q : ℕ) → held q (dup fd w).1 ≡ held q w + gain q (dup fd w).0
    pub close_holds :
        (fd : Fd) (w : World)
        → ((q : ℕ) → gain q fd ≤ held q w)
        → (q : ℕ) → held q (close fd w) + gain q fd ≡ held q w
    pub set_pipe_size_holds :
        (fd : Fd) (bytes : ℕ) (w : World) (q : ℕ) → held q (set_pipe_size fd bytes w) ≡ held q w
    pub mkfifo_holds : (name : FileName) (w : World) (q : ℕ) → held q (mkfifo name w).1 ≡ held q w
    pub unlink_holds : (name : FileName) (w : World) (q : ℕ) → held q (unlink name w) ≡ held q w
    pub create_holds :
        (name : FileName) (w w' : World) (q : ℕ)
        → create_directories name w ≡ some w'
        → held q w' ≡ held q w

  module _ (descriptors : Descriptors) where
    open descriptors use {held}

    abbrev pub Balanced : World → World → Type 0
    Balanced w w' = (q : ℕ) → held q w' ≡ held q w

    -- It returns with such a status, and with the descriptors that were open in w.
    abbrev pub Done : ℤ → World → Outcome (ℕ × World) → Type 0
    Done mode w o = (n : ℕ) × (w' : World) × (o ≡ ok (n, w')) × Status mode n × Balanced w w'

    -- A run that returns, or throws, with the descriptors that were open.
    abbrev pub Returns : World → Run ℕ World → Type 0
    Returns w r = (total : ℕ) × (w' : World) × (r ≡ returned total w') × Balanced w w'

    abbrev pub Throws : World → Run ℕ World → Type 0
    Throws w r = (w' : World) × (r ≡ threw w') × Balanced w w'

    pub record Working (engines : Engines World) : Type 0 where
      pub readv_returns :
          (source : Fd) (dests : List Fd) (w : World) → Returns w (engines.readv source dests w)
      pub uring_returns :
          (source : Fd) (dests : List Fd) (w : World) → Returns w (engines.uring source dests w)
      pub splice_ends :
          (source : Fd) (dests writes reads : List Fd) (w : World)
          → Returns w (engines.splice source dests writes reads w)
            ⊎ Throws w (engines.splice source dests writes reads w)
      pub tee_ends :
          (source input_w input_r : Fd) (dests writes reads : List Fd) (w : World)
          → Returns w (engines.tee source input_w input_r dests writes reads w)
            ⊎ Throws w (engines.tee source input_w input_r dests writes reads w)
