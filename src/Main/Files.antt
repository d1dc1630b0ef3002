-- ===== src/Main/Files.antt =====
-- What the manuals promise of the system calls about files by their names, and the outputs that
-- `main` opens.
use independent_study.Base.{
  ◌++◌, take, drop, pos, ℕ, zero, suc, ◌+◌, ◌≤◌, ◌≡◌, ◌≢◌, refl, ap, subst, ◌∙◌, true, false, List,
  [], ◌∷◌, length, get_elem?, Option, some, some_inj, ok, ℤ, is_negative, Bool-cases, inl, inr,
  arith,
}
use independent_study.Base.Slices.{write_at}
use independent_study.Liburing.{Fd, Iovec, iov_bytes}
use independent_study.IoHandle.{Name, is_assigned}
use independent_study.IoHandle.FileSize.{Stat, regular}
use independent_study.FileIo.{FileIo, Kept}
use independent_study.ReadvTree.{chunk_size}
use independent_study.Main.{
  Dir, FileName, output, OpenFlags, rdonly, rdwr_create_trunc, wronly_create_trunc, mode_below,
  System, cons_fd, open_outputs, close_handle, close_handles,
}

-- The system calls of the copies, on the state that the other system calls work on.
pub record CopyCalls (World : Type 0) : Type 0 where
  pub fstat : Fd → World → Option Stat
  pub blkgetsize64 : Fd → World → Option ℕ
  pub posix_memalign : ℕ → ℕ → World → Option (ℕ × World)
  pub free : ℕ → World → World
  pub preadv : Fd → List Iovec → ℕ → World → ℤ × World
  pub pwritev : Fd → List Iovec → ℕ → World → ℤ × World

abbrev pub file_io : (sys : System) → CopyCalls sys.World → FileIo
file_io sys calls = record {
  World = sys.World;
  fstat = calls.fstat;
  blkgetsize64 = calls.blkgetsize64;
  posix_memalign = calls.posix_memalign;
  free = calls.free;
  preadv = calls.preadv;
  pwritev = calls.pwritev;
}

-- What holds of the first output and of the later ones holds of all.
from_first :
    (Q : ℕ → Fd → Type 0) (i : ℕ) (fd : Fd) (fds : List Fd)
    → Q i fd
    → ((j : ℕ) (g : Fd) → get_elem? fds j ≡ some g → Q (i + 1 + j) g)
    → (j : ℕ) (g : Fd) → get_elem? (fd ∷ fds) j ≡ some g
    → Q (i + j) g
from_first Q i fd fds first later zero g e =
    let here : i ≡ i + 0 = omega arith in subst (λ n. Q n g) here (subst (Q i) (some_inj e) first)
from_first Q i fd fds first later (suc j) g e =
    let there : i + 1 + j ≡ i + suc j = omega arith in subst (λ n. Q n g) there (later j g e)

-- Whether a descriptor that was opened so can be read from, and written to.
abbrev pub CanRead : OpenFlags → Type 0
CanRead wronly_create_trunc = ⊥
CanRead flags = Unit

abbrev pub CanWrite : OpenFlags → Type 0
CanWrite rdonly = ⊥
CanWrite flags = Unit

module _ (sys : System) (calls : CopyCalls sys.World) where
  open sys use {World, open_file, close, create_directories}
  open calls use {fstat, posix_memalign, free, preadv, pwritev}

  -- `stored` is what the file of a name holds, and `content` what stands behind a descriptor.
  -- `IsOpen` says that a descriptor is open, was opened with such flags, and is of the file of a
  -- name; a file may be open more than once. `IsFile` says that what stands under a name, if
  -- anything does, is a regular file, and `Distinct` that two names are of different files. No
  -- allocation fails, and no transfer is short. `Buffers` and `gathered` are as in `FileIo`.
  pub record Files : Type 1 where
    pub stored : FileName → World → List ℕ
    pub content : Fd → World → List ℕ
    pub Buffers : List Iovec → World → Type 0
    pub gathered : List Iovec → World → List ℕ
    pub IsFile : FileName → Type 0
    pub Distinct : FileName → FileName → Type 0
    pub IsOpen : Fd → FileName → OpenFlags → World → Type 0
    pub open_content :
        (fd : Fd) (name : FileName) (flags : OpenFlags) (w : World)
        → IsOpen fd name flags w
        → content fd w ≡ stored name w
    pub open_apart :
        (fd g : Fd) (name other : FileName) (flags flags' : OpenFlags) (w : World)
        → IsOpen fd name flags w
        → IsOpen g other flags' w
        → Distinct name other
        → fd ≢ g
    pub opens :
        (name : FileName) (flags : OpenFlags) (w : World)
        → IsFile name
        → is_negative (open_file name flags w).0 ≡ false
        → IsOpen (open_file name flags w).0 name flags (open_file name flags w).1
    pub open_keeps :
        (name : FileName) (flags : OpenFlags) (w : World) (g : Fd) (other : FileName)
        (flags' : OpenFlags)
        → IsOpen g other flags' w
        → IsOpen g other flags' (open_file name flags w).1
    pub truncates :
        (name : FileName) (w : World)
        → IsFile name
        → is_negative (open_file name rdwr_create_trunc w).0 ≡ false
        → stored name (open_file name rdwr_create_trunc w).1 ≡ []
    pub open_stored :
        (name : FileName) (flags : OpenFlags) (w : World) (other : FileName)
        → Distinct name other
        → stored other (open_file name flags w).1 ≡ stored other w
    pub rdonly_stored :
        (name : FileName) (w : World) → stored name (open_file name rdonly w).1 ≡ stored name w
    pub create_stored :
        (name : FileName) (w w' : World)
        → create_directories name w ≡ some w'
        → ((other : FileName) → stored other w' ≡ stored other w)
          × ((g : Fd) (other : FileName) (flags : OpenFlags)
              → IsOpen g other flags w
              → IsOpen g other flags w')
    pub close_stored :
        (fd : Fd) (w : World) (name : FileName) → stored name (close fd w) ≡ stored name w
    pub transfers_keep :
        (fd : Fd) (name : FileName) (flags : OpenFlags)
        → Kept (file_io sys calls) chunk_size (IsOpen fd name flags)
    pub fstat_size :
        (fd : Fd) (name : FileName) (flags : OpenFlags) (w : World)
        → IsOpen fd name flags w
        → fstat fd w ≡ some (record { st_mode = regular; st_size = pos (length (content fd w)) })
    pub no_buffers : (w : World) → Buffers [] w
    pub alloc :
        (vs : List Iovec) (w : World) (len : ℕ)
        → Buffers vs w
        → len ≤ chunk_size
        → (p : ℕ) × (w' : World) × (posix_memalign 4096 chunk_size w ≡ some (p, w'))
          × Buffers (vs ++ record { iov_base = p; iov_len = len } ∷ []) w'
          × ((fd : Fd) → content fd w' ≡ content fd w)
    pub free_content : (p : ℕ) (w : World) (fd : Fd) → content fd (free p w) ≡ content fd w
    pub preadv_reads :
        (fd : Fd) (name : FileName) (flags : OpenFlags) (vs : List Iovec) (off : ℕ) (w : World)
        → IsOpen fd name flags w
        → CanRead flags
        → Buffers vs w
        → off + iov_bytes vs ≤ length (content fd w)
        → (w' : World) × (preadv fd vs off w ≡ (pos (iov_bytes vs), w'))
          × Buffers vs w'
          × (gathered vs w' ≡ take (iov_bytes vs) (drop off (content fd w)))
          × ((g : Fd) → content g w' ≡ content g w)
    pub pwritev_writes :
        (fd : Fd) (name : FileName) (flags : OpenFlags) (vs : List Iovec) (off : ℕ) (w : World)
        → IsOpen fd name flags w
        → CanWrite flags
        → Buffers vs w
        → off ≤ length (content fd w)
        → (w' : World) × (pwritev fd vs off w ≡ (pos (iov_bytes vs), w'))
          × (content fd w' ≡ write_at off (gathered vs w) (content fd w))
          × ((g : Fd) (other : FileName) (flags' : OpenFlags)
              → IsOpen g other flags' w
              → Distinct name other
              → content g w' ≡ content g w)

  module _ (files : Files) where
    open files use {stored}

    pub close_handle-stored :
        (fd : Fd) (w : World) (name : FileName)
        → stored name (close_handle sys fd w) ≡ stored name w
    unfolding close_handle
    close_handle-stored fd w name = elim (Bool-cases (is_assigned fd)) [
      | inl e ↦ rw (e, close_handle) (files.close_stored fd w name)
      | inr e ↦ rw (e, close_handle) refl
    ]

    pub close_handles-stored :
        (fds : List Fd) (w : World) (name : FileName)
        → stored name (close_handles sys fds w) ≡ stored name w
    unfolding close_handles
    close_handles-stored [] w name = refl
    close_handles-stored (fd ∷ fds) w name =
        close_handles-stored fds (close_handle sys fd w) name ∙ close_handle-stored fd w name

  module _ (files : Files) (dir : Dir) (ext : Name) (low : mode_below dir.mode 3 ≡ true)
      (never_fails : (i : ℕ) (w : World)
        → is_negative (open_file (output dir i ext) rdwr_create_trunc w).0 ≡ false)
      (distinct : (i j : ℕ) → i ≢ j → files.Distinct (output dir i ext) (output dir j ext))
      (are_files : (i : ℕ) → files.IsFile (output dir i ext)) where
    open files use {stored, IsOpen, Distinct, opens, open_keeps, truncates, open_stored}

    -- The outputs from the i-th on are open and empty, and other files are as they were.
    pub record Emptied (left i : ℕ) (w : World) : Type 0 where
      pub fds : List Fd
      pub world : World
      pub result : open_outputs sys left i dir ext w ≡ ok (fds, world)
      pub many : length fds ≡ left
      pub each :
          (j : ℕ) (fd : Fd)
          → get_elem? fds j ≡ some fd
          → IsOpen fd (output dir (i + j) ext) rdwr_create_trunc world
            × (stored (output dir (i + j) ext) world ≡ [])
      pub others :
          (name : FileName)
          → ((j : ℕ) → i ≤ j → Distinct (output dir j ext) name)
          → stored name world ≡ stored name w
      pub still_open :
          (g : Fd) (name : FileName) (flags : OpenFlags)
          → IsOpen g name flags w
          → IsOpen g name flags world

    pub open_outputs-Emptied : (left i : ℕ) (w : World) → Emptied left i w
    unfolding open_outputs cons_fd
    open_outputs-Emptied zero i w = record {
      fds = [];
      world = w;
      result = refl;
      many = refl;
      each = λ j fd e. cc;
      others = λ name apart. refl;
      still_open = λ g name flags h. h;
    }
    open_outputs-Emptied (suc left) i w =
        let name = output dir i ext in
        let fd = (open_file name rdwr_create_trunc w).0 in
        let w' = (open_file name rdwr_create_trunc w).1 in
        let rest = open_outputs-Emptied left (i + 1) w' in
        let later : (j : ℕ) → i + 1 ≤ j → Distinct (output dir j ext) name =
          λ j le. distinct j i (λ same. absurd (omega (arith, le, same))) in
        record {
          fds = fd ∷ rest.fds;
          world = rest.world;
          result =
              rw (low, open_outputs)
                (rw (never_fails i w, open_outputs) (ap (cons_fd sys fd) rest.result));
          many = ap suc rest.many;
          each =
              from_first
                (λ n g.
                  IsOpen g (output dir n ext) rdwr_create_trunc rest.world
                  × (stored (output dir n ext) rest.world ≡ []))
                i fd rest.fds
                (
                  rest.still_open fd name rdwr_create_trunc
                      (opens name rdwr_create_trunc w (are_files i) (never_fails i w)),
                  rest.others name later ∙ truncates name w (are_files i) (never_fails i w),
                )
                rest.each;
          others = λ other apart.
              rest.others other (λ j le. apart j (omega (arith, le)))
              ∙ open_stored name rdwr_create_trunc w other (apart i (omega arith));
          still_open = λ g other flags h.
              rest.still_open g other flags (open_keeps name rdwr_create_trunc w g other flags h);
        }
