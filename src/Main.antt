-- ===== src/Main.antt =====
-- source/main.cpp and source/file_system/Manage_Pipe.hpp: the program opens the input and the
-- outputs, for modes above 2 also the named pipes, runs an engine and lets go of everything. The
-- system and the engines are parameters. A handle is the descriptor that it owns; the names given
-- to handles and the printed reports are left out.
pub mod Program
pub mod Laws
pub mod Closing
pub mod Piped
pub mod Balance
pub mod Files
pub mod Opened
pub mod Copies
pub mod Fifos
pub mod Removed
mod Tests
use independent_study.Base.{
  ℕ, zero, suc, ◌+◌, ◌*◌, Bool, true, false, ltb, ◌==◌, if◌then◌else◌, List, [], ◌∷◌, Option, none,
  some, Outcome, ok, fail, Fault, exit_with, ℤ, pos, negsuc, is_negative,
}
use independent_study.Liburing.{Fd}
use independent_study.IoHandle.{Name, is_assigned}

abbrev pub eio : ℕ
eio = 5

abbrev pub eexist : ℕ
eexist = 17

abbrev pub einval : ℕ
einval = 22

abbrev pub ebadfd : ℕ
ebadfd = 77

-- `(COPIES == 1) ? "Single" : (COPIES == 2) ? "Dual" : "Multi"`
pub data Size : Type 0 where
  single dual multi : Size

abbrev pub size_of : ℤ → Size
size_of (pos n) = if n == 1 then single else if n == 2 then dual else multi
size_of (negsuc n) = multi

-- `dir`, and the strings that are formatted from it: "{dir}", "{dir}/output_{i}{ext}" and
-- "{dir}_{suffix}.fifo".
pub record Dir : Type 0 where
  pub mode : ℤ
  pub size : Size

pub data FileName : Type 0 where
  argument : Name → FileName
  directory : Dir → FileName
  output : Dir → ℕ → Name → FileName
  fifo : Dir → ℕ → FileName

pub data OpenFlags : Type 0 where
  rdonly rdwr rdwr_create_trunc wronly_create_trunc : OpenFlags

-- How a call ends that can throw a `std::system_error`.
pub data Run (A World : Type 0) : Type 0 where
  returned : A → World → Run A World
  threw : World → Run A World
  ended : Fault → Run A World

-- The system calls and library functions; `mkfifo` gives its `errno` where it fails.
pub record System : Type 1 where
  pub World : Type 0
  pub open_file : FileName → OpenFlags → World → Fd × World
  pub dup : Fd → World → Fd × World
  pub close : Fd → World → World
  pub set_pipe_size : Fd → ℕ → World → World
  pub mkfifo : FileName → World → Option ℕ × World
  pub unlink : FileName → World → World
  pub create_directories : FileName → World → Option World
  pub atoi : Name → ℤ
  pub extension : Name → Name

-- The engines, which are modelled in modules of their own.
pub record Engines (World : Type 0) : Type 0 where
  pub readv : Fd → List Fd → World → Run ℕ World
  pub uring : Fd → List Fd → World → Run ℕ World
  pub splice : Fd → List Fd → List Fd → List Fd → World → Run ℕ World
  pub tee : Fd → Fd → Fd → List Fd → List Fd → List Fd → World → Run ℕ World

-- `MODE == n`, and `MODE < n`
abbrev pub is_mode : ℤ → ℕ → Bool
is_mode (pos m) n = m == n
is_mode (negsuc m) n = false

abbrev pub mode_below : ℤ → ℕ → Bool
mode_below (pos m) n = ltb m n
mode_below (negsuc m) n = true

-- `get_system_pipe_limit`, of what the file pipe-max-size says, or none where it cannot be read.
abbrev int_below : ℤ → ℤ → Bool
int_below (pos a) (pos b) = ltb a b
int_below (pos a) (negsuc b) = false
int_below (negsuc a) (pos b) = true
int_below (negsuc a) (negsuc b) = ltb b a

abbrev pub get_system_pipe_limit : ℤ → Option ℤ → ℤ
get_system_pipe_limit requested_size none = pos 65536
get_system_pipe_limit requested_size (some system_max) =
    if int_below requested_size system_max then requested_size else system_max

-- How the pipes come to be there: all of them, or one that cannot be opened or made.
pub data Ending : Type 0 where
  complete unopened unmade : Ending

-- The pipes that were made, and the descriptors of those that were opened.
pub record Pipes (World : Type 0) : Type 0 where
  pub storage : List FileName
  pub writes : List Fd
  pub reads : List Fd
  pub ending : Ending
  pub world : World

pub data Opening (World : Type 0) : Type 0 where
  no_pipe not_open : World → Opening World
  opened : Fd → Fd → World → Opening World

module _ (sys : System) where
  open sys use {
    World, open_file, dup, close, set_pipe_size, mkfifo, unlink, create_directories, atoi,
    extension,
  }

  -- The loop that opens the outputs, from output i on.
  unfoldable pub cons_fd : Fd → Outcome (List Fd × World) → Outcome (List Fd × World)
  cons_fd fd (ok (fds, w)) = ok (fd ∷ fds, w)
  cons_fd fd (fail fault) = fail fault

  unfoldable pub open_outputs : ℕ → ℕ → Dir → Name → World → Outcome (List Fd × World)
  unfolding cons_fd
  open_outputs zero i dir ext w = ok ([], w)
  open_outputs (suc left) i dir ext w =
      let flags = if mode_below dir.mode 3 then rdwr_create_trunc else wronly_create_trunc in
      let (fd, w') = open_file (output dir i ext) flags w in
      let rest = open_outputs left (i + 1) dir ext w' in
      if is_negative fd then fail (exit_with eio) else cons_fd fd rest

  -- The constructor of `ManagedPipe`: true, or false where it throws.
  unfoldable pub managed_pipe : FileName → World → Bool × World
  managed_pipe name w =
      let (result, w') = mkfifo name w in
      (elim result [ none ↦ true | some errno ↦ errno == eexist ], w')

  -- A pipe from its constructor to the descriptors of its two handles.
  unfoldable pub open_ends : FileName → Bool × World → Opening World
  open_ends name (made, w) =
      let (fd, w1) = open_file name rdwr w in
      let w2 = set_pipe_size fd (1024 * 1024) w1 in
      let (fd', w3) = dup fd w2 in
      if made
      then (if is_negative fd
          then not_open w1
          else opened fd fd' (set_pipe_size fd' (1024 * 1024) w3))
      else no_pipe w

  unfoldable pub open_pipe : FileName → World → Opening World
  unfolding managed_pipe open_ends
  open_pipe name w = open_ends name (managed_pipe name w)

  unfoldable pub add_pipe : FileName → Fd → Fd → Pipes World → Pipes World
  add_pipe name fd fd' ps = record ps {
    storage = name ∷ ps.storage;
    writes = fd ∷ ps.writes;
    reads = fd' ∷ ps.reads;
  }

  -- The loop that makes and opens the output pipes, from the pipe with suffix i on.
  unfoldable pub open_pipes : ℕ → ℕ → Dir → World → Pipes World
  unfolding open_pipe add_pipe
  open_pipes zero i dir w = record {
    storage = [];
    writes = [];
    reads = [];
    ending = complete;
    world = w;
  }
  open_pipes (suc left) i dir w = elim (open_pipe (fifo dir i) w) [
    | no_pipe w' ↦ record { storage = []; writes = []; reads = []; ending = unmade; world = w' }
    | not_open w' ↦ record {
      storage = fifo dir i ∷ [];
      writes = [];
      reads = [];
      ending = unopened;
      world = w';
    }
    | opened fd fd' w' ↦ add_pipe (fifo dir i) fd fd' (open_pipes left (i + 1) dir w')
  ]

  -- The destructors of a handle, of a vector of handles, and of a vector of pipes.
  unfoldable pub close_handle : Fd → World → World
  close_handle fd w = if is_assigned fd then close fd w else w

  unfoldable pub close_handles : List Fd → World → World
  unfolding close_handle
  close_handles [] w = w
  close_handles (fd ∷ fds) w = close_handles fds (close_handle fd w)

  unfoldable pub remove_pipes : List FileName → World → World
  remove_pipes [] w = w
  remove_pipes (name ∷ names) w = remove_pipes names (unlink name w)

  -- The end of the `try` block: the objects go in the reverse order of their declarations.
  unfoldable pub release : Dir → Fd → Fd → Pipes World → World → World
  unfolding close_handle close_handles remove_pipes
  release dir input_w input_r ps w =
      let w1 = close_handles ps.writes (close_handles ps.reads w) in
      remove_pipes (fifo dir 0 ∷ ps.storage) (close_handle input_w (close_handle input_r w1))
