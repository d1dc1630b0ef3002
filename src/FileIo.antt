-- ===== src/FileIo.antt =====
-- The system calls and the allocator that source/IOuring/readv_broadcaster.hpp uses, which are not
-- code of this repository: a record of operations on the state of the system, and as `Reliable`
-- what their manuals promise where nothing fails and no transfer is short. `FileIo/Sim.antt` meets
-- it.
pub mod Sim
use independent_study.Base.{
  ◌==◌, if◌then◌else◌, ℕ, ◌+◌, ◌≤◌, ◌≡◌, ◌≢◌, List, [], ◌∷◌, ◌++◌, length, take, drop, Option, some,
  ℤ, pos,
}
use independent_study.Base.Slices.{write_at}
use independent_study.Liburing.{Fd, Iovec, iov_bytes}
use independent_study.IoHandle.FileSize.{Stat, regular}

-- The result of a transfer is its number of bytes, or negative.
pub record FileIo : Type 1 where
  pub World : Type 0
  pub fstat : Fd → World → Option Stat
  pub blkgetsize64 : Fd → World → Option ℕ
  pub posix_memalign : ℕ → ℕ → World → Option (ℕ × World)
  pub free : ℕ → World → World
  pub preadv : Fd → List Iovec → ℕ → World → ℤ × World
  pub pwritev : Fd → List Iovec → ℕ → World → ℤ × World

-- `Usable` says that a descriptor is one of those in question, `Writable` that it is also one for
-- writing. In a state that is `Ready` all of these are open, of regular files, and two of them of
-- different files. `Buffers` says of a vector that its blocks are allocated, apart and long enough;
-- `gathered` is what they hold.
module _ (io : FileIo) (block : ℕ) where
  open io use {World, fstat, posix_memalign, free, preadv, pwritev}

  -- A property that every call keeps.
  pub record Kept (P : World → Type 0) : Type 0 where
    pub memalign_keeps :
        (w w' : World) (p : ℕ) → posix_memalign 4096 block w ≡ some (p, w') → P w → P w'
    pub free_keeps : (p : ℕ) (w : World) → P w → P (free p w)
    pub preadv_keeps :
        (fd : Fd) (vs : List Iovec) (off : ℕ) (w : World) → P w → P (preadv fd vs off w).1
    pub pwritev_keeps :
        (fd : Fd) (vs : List Iovec) (off : ℕ) (w : World) → P w → P (pwritev fd vs off w).1

  pub record Reliable : Type 1 where
    pub content : Fd → World → List ℕ
    pub Usable : Fd → Type 0
    pub Writable : Fd → Type 0
    pub Ready : World → Type 0
    pub Buffers : List Iovec → World → Type 0
    pub gathered : List Iovec → World → List ℕ
    pub ready_kept : Kept Ready
    pub fstat_size :
        (fd : Fd) (w : World)
        → Usable fd
        → Ready w
        → fstat fd w ≡ some (record { st_mode = regular; st_size = pos (length (content fd w)) })
    pub no_buffers : (w : World) → Buffers [] w
    pub alloc :
        (vs : List Iovec) (w : World) (len : ℕ)
        → Buffers vs w
        → len ≤ block
        → (p : ℕ) × (w' : World) × (posix_memalign 4096 block w ≡ some (p, w'))
          × Buffers (vs ++ record { iov_base = p; iov_len = len } ∷ []) w'
          × ((fd : Fd) → content fd w' ≡ content fd w)
    pub free_content : (p : ℕ) (w : World) (fd : Fd) → content fd (free p w) ≡ content fd w
    pub preadv_reads :
        (fd : Fd) (vs : List Iovec) (off : ℕ) (w : World)
        → Usable fd
        → Ready w
        → Buffers vs w
        → off + iov_bytes vs ≤ length (content fd w)
        → (w' : World) × (preadv fd vs off w ≡ (pos (iov_bytes vs), w'))
          × Buffers vs w'
          × (gathered vs w' ≡ take (iov_bytes vs) (drop off (content fd w)))
          × ((fd' : Fd) → content fd' w' ≡ content fd' w)
    pub pwritev_writes :
        (fd : Fd) (vs : List Iovec) (off : ℕ) (w : World)
        → Writable fd
        → Ready w
        → Buffers vs w
        → off ≤ length (content fd w)
        → (w' : World) × (pwritev fd vs off w ≡ (pos (iov_bytes vs), w'))
          × (content fd w' ≡ write_at off (gathered vs w) (content fd w))
          × ((fd' : Fd) → Usable fd' → fd' ≢ fd → content fd' w' ≡ content fd' w)

  -- What the allocator does, whether or not the transfers succeed: `held p` counts the blocks at
  -- address p that are allocated and not freed.
  pub record Counting : Type 1 where
    pub held : ℕ → World → ℕ
    pub alloc_holds :
        (w w' : World) (p q : ℕ)
        → posix_memalign 4096 block w ≡ some (p, w')
        → held q w' ≡ held q w + (if p == q then 1 else 0)
    pub free_releases :
        (p : ℕ) (w : World) (q : ℕ)
        → 1 ≤ held p w
        → held q (free p w) + (if p == q then 1 else 0) ≡ held q w
    pub preadv_holds :
        (fd : Fd) (vs : List Iovec) (off : ℕ) (w : World) (q : ℕ)
        → held q (preadv fd vs off w).1 ≡ held q w
    pub pwritev_holds :
        (fd : Fd) (vs : List Iovec) (off : ℕ) (w : World) (q : ℕ)
        → held q (pwritev fd vs off w).1 ≡ held q w
