-- ===== src/UringVec/Delivery.antt =====
-- Which bytes reach the outputs of the vectored broadcast, where the kernel carries out its requests
-- as whole transfers: the stages of one window, from the requests that are still to come.
pub mod Steps
pub mod Any
pub mod Jobs
pub mod Submitted
mod Tests
use independent_study.Base.{
  ℕ, ◌+◌, ◌≤◌, ◌<◌, ◌≡◌, ◌≢◌, ◌∙◌, List, [], ◌∷◌, length, take, drop, get_elem?,
}
use independent_study.Liburing.{Fd, Sqe, iov_bytes}
use independent_study.Kernel.{Kernel}
use independent_study.Kernel.Vectors.{Usable, Disjoint, Vectors}
use independent_study.UringVec.{RequestContext, Data, read_sqe, write_sqe}

-- One window for one output, from byte `at` on.
pub record Job : Type 0 where
  pub output : Fd
  pub context : RequestContext
  pub at : ℕ

abbrev pub job_size : Job → ℕ
job_size j = iov_bytes j.context.iovecs

abbrev pub asked : Fd → Job → List (Sqe Data)
asked input j = read_sqe input j.context j.at ∷ write_sqe j.output j.context j.at ∷ []

module _ (k : Kernel) (v : Vectors k) (input : Fd) (src : List ℕ) where
  open k use {World, run}
  open v use {content, gathered, readv_reads, writev_writes}

  -- The window's bytes of the source stand in the output.
  abbrev pub Written : Job → World → Type 0
  Written j w =
      (x : ℕ)
      → x < job_size j
      → get_elem? (content j.output w) (j.at + x) ≡ get_elem? src (j.at + x)

  pub data Stage (j : Job) (w : World) (q : List (Sqe Data)) : Type 0 where
    waiting : q ≡ asked input j → Stage j w q
    loaded :
        q ≡ write_sqe j.output j.context j.at ∷ []
        → gathered j.context.iovecs w ≡ take (job_size j) (drop j.at src)
        → Stage j w q
    stored : q ≡ [] → Written j w → Stage j w q

  -- A window that can be read and written.
  pub record IsReady (j : Job) : Type 0 where
    pub usable : Usable j.context.iovecs
    pub inside : j.at + job_size j ≤ length src
    pub away : input ≢ j.output

  -- A request of job `j` leaves the windows of a job whose blocks are others.
  pub Spares : Job → World → World → Type 0
  Spares j w w' =
      (j' : Job)
      → Disjoint j'.context.iovecs j.context.iovecs
      → (gathered j'.context.iovecs w' ≡ gathered j'.context.iovecs w)
        × (Written j' w → j'.at + job_size j' ≤ length src → Written j' w')

  pub record Moved (j : Job) (w w' : World) (rest : List (Sqe Data)) : Type 0 where
    pub stage : Stage j w' rest
    pub source_same : content input w' ≡ content input w
    pub lengths : (g : Fd) → length (content g w) ≤ length src → length (content g w') ≤ length src
    pub spares : Spares j w w'

  pub Stage-spared :
      (j j' : Job) (w w' : World) (q : List (Sqe Data))
      → Spares j w w'
      → Disjoint j'.context.iovecs j.context.iovecs
      → IsReady j'
      → Stage j' w q
      → Stage j' w' q
  unfolding Spares
  Stage-spared j j' w w' q s apart ready (waiting e) = waiting e
  Stage-spared j j' w w' q s apart ready (loaded e full) = loaded e ((s j' apart).0 ∙ full)
  Stage-spared j j' w w' q s apart ready (stored e there) =
      stored e ((s j' apart).1 there ready.inside)
