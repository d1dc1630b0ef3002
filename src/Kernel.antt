-- ===== src/Kernel.antt =====
-- The kernel's side of the splice and tee engines, which is not code of this repository: how it
-- carries out a request, as a function on the state of the system, and as `Transfers` what the
-- manuals of splice(2) and tee(2) say of a transfer that moves all bytes that it is asked for.
-- `Kernel/Sim.antt` meets it.
pub mod Sim
pub mod Copies
pub mod Vectors
pub mod Memory
pub mod Chunks
use independent_study.Base.{
  ℕ, ◌+◌, ◌-◌, ◌≤◌, ◌≡◌, ◌≢◌, List, [], ◌∷◌, ◌++◌, length, take, drop, replicate, Option, none,
  some, pos, minus_one,
}
use independent_study.Base.Slices.{write_at}
use independent_study.Liburing.{Fd, Request, splice, tee, Sqe}

pub record Kernel : Type 1 where
  pub World : Type 0
  pub run : Request → World → World

-- The requests one after the other.
unfoldable pub run_all : {D : Type 0} (k : Kernel) → List (Sqe D) → k.World → k.World
run_all k [] w = w
run_all k (s ∷ ss) w = run_all k ss (k.run s.request w)

-- A write behind the end of a file fills the hole with zeros.
abbrev pub padded : ℕ → List ℕ → List ℕ
padded off file = file ++ replicate (off - length file) 0

-- A descriptor is an end of the pipe with some number, or of a file; two descriptors of files are
-- of different ones. `content` is what a file holds, `held` what stands in a pipe, up to
-- `capacity` bytes.
pub record Transfers (k : Kernel) : Type 1 where
  pub pipe_of : Fd → Option ℕ
  pub capacity : ℕ
  pub content : Fd → k.World → List ℕ
  pub held : ℕ → k.World → List ℕ
  pub splice_in :
      (f o : Fd) (p off len : ℕ) (w : k.World)
      → pipe_of f ≡ none
      → pipe_of o ≡ some p
      → off + len ≤ length (content f w)
      → length (held p w) + len ≤ capacity
      → (held p (k.run (splice f (pos off) o minus_one len) w)
          ≡ held p w ++ take len (drop off (content f w)))
        × ((q : ℕ) → q ≢ p → held q (k.run (splice f (pos off) o minus_one len) w) ≡ held q w)
        × ((g : Fd) → content g (k.run (splice f (pos off) o minus_one len) w) ≡ content g w)
  pub splice_out :
      (i f : Fd) (p off len : ℕ) (w : k.World)
      → pipe_of i ≡ some p
      → pipe_of f ≡ none
      → len ≤ length (held p w)
      → (held p (k.run (splice i minus_one f (pos off) len) w) ≡ drop len (held p w))
        × (content f (k.run (splice i minus_one f (pos off) len) w)
            ≡ write_at off (take len (held p w)) (padded off (content f w)))
        × ((q : ℕ) → q ≢ p → held q (k.run (splice i minus_one f (pos off) len) w) ≡ held q w)
        × ((g : Fd)
            → g ≢ f
            → content g (k.run (splice i minus_one f (pos off) len) w) ≡ content g w)
  pub tee_copies :
      (i o : Fd) (p q len : ℕ) (w : k.World)
      → pipe_of i ≡ some p
      → pipe_of o ≡ some q
      → p ≢ q
      → len ≤ length (held p w)
      → length (held q w) + len ≤ capacity
      → (held q (k.run (tee i o len) w) ≡ held q w ++ take len (held p w))
        × ((r : ℕ) → r ≢ q → held r (k.run (tee i o len) w) ≡ held r w)
        × ((g : Fd) → content g (k.run (tee i o len) w) ≡ content g w)
