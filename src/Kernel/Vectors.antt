-- ===== src/Kernel/Vectors.antt =====
-- What the manuals of readv(2) and writev(2) say of transfers into and out of memory that move all
-- bytes that they are asked for. An address is that of a block of 64 KiB which the allocator gave,
-- so that blocks at different addresses do not overlap.
use independent_study.Base.{
  ℕ, ◌+◌, ◌≤◌, ◌≡◌, ◌≢◌, ◌==◌, if◌then◌else◌, List, length, take, drop, All,
}
use independent_study.Base.Sums.{weigh}
use independent_study.Base.Slices.{write_at}
use independent_study.Liburing.{Fd, Iovec, iov_bytes, readv, writev}
use independent_study.Kernel.{Kernel, padded}

abbrev pub block_bytes : ℕ
block_bytes = 65536

-- How many blocks of a vector stand at an address.
abbrev pub uses : ℕ → List Iovec → ℕ
uses q = weigh (λ v. if v.iov_base == q then 1 else 0)

abbrev pub Usable : List Iovec → Type 0
Usable vs = All (λ v. v.iov_len ≤ block_bytes) vs × ((q : ℕ) → uses q vs ≤ 1)

abbrev pub Disjoint : List Iovec → List Iovec → Type 0
Disjoint us vs = (q : ℕ) → uses q us + uses q vs ≤ 1

pub record Vectors (k : Kernel) : Type 1 where
  pub content : Fd → k.World → List ℕ
  pub gathered : List Iovec → k.World → List ℕ
  pub readv_reads :
      (f : Fd) (vs : List Iovec) (off : ℕ) (w : k.World)
      → Usable vs
      → off + iov_bytes vs ≤ length (content f w)
      → (gathered vs (k.run (readv f vs off) w) ≡ take (iov_bytes vs) (drop off (content f w)))
        × ((us : List Iovec)
            → Disjoint us vs
            → gathered us (k.run (readv f vs off) w) ≡ gathered us w)
        × ((g : Fd) → content g (k.run (readv f vs off) w) ≡ content g w)
  pub writev_writes :
      (f : Fd) (vs : List Iovec) (off : ℕ) (w : k.World)
      → Usable vs
      → length (gathered vs w) ≡ iov_bytes vs
      → (content f (k.run (writev f vs off) w)
          ≡ write_at off (gathered vs w) (padded off (content f w)))
        × ((g : Fd) → g ≢ f → content g (k.run (writev f vs off) w) ≡ content g w)
        × ((us : List Iovec) → gathered us (k.run (writev f vs off) w) ≡ gathered us w)
