-- ===== src/Tee/Delivery.antt =====
-- Which bytes reach the outputs of the tee broadcast, where the kernel carries out the requests of
-- a chain one after the other, as their links ask, and each as a whole transfer.
pub mod Branches
pub mod Chains
mod Tests
use independent_study.Base.{ℕ, suc, ◌≤◌, ◌≡◌, ◌≢◌, List, ◌∷◌, get_elem?, none, some, arith}
use independent_study.Kernel.{Kernel, Transfers}
use independent_study.Kernel.Chunks.{chunk_bytes}
use independent_study.Tee.{Output, Source}

module _ (k : Kernel) (t : Transfers k) (s : Source) where
  open t use {pipe_of, capacity}

  -- The source and each output have a file and a pipe of their own, and a pipe holds a chunk.
  pub record Wired (outs : List Output) : Type 0 where
    pub room : chunk_bytes ≤ capacity
    pub from_file : pipe_of s.file ≡ none
    pub middle : ℕ
    pub source_writes : pipe_of s.write_pipe ≡ some middle
    pub source_reads : pipe_of s.read_pipe ≡ some middle
    pub number : ℕ → ℕ
    pub writes :
        (i : ℕ) (o : Output) → get_elem? outs i ≡ some o → pipe_of o.write_pipe ≡ some (number i)
    pub reads :
        (i : ℕ) (o : Output) → get_elem? outs i ≡ some o → pipe_of o.read_pipe ≡ some (number i)
    pub file : (i : ℕ) (o : Output) → get_elem? outs i ≡ some o → pipe_of o.file ≡ none
    pub not_source : (i : ℕ) (o : Output) → get_elem? outs i ≡ some o → s.file ≢ o.file
    pub not_middle : (i : ℕ) (o : Output) → get_elem? outs i ≡ some o → middle ≢ number i
    pub apart :
        (i j : ℕ) (o o' : Output)
        → get_elem? outs i ≡ some o
        → get_elem? outs j ≡ some o'
        → i ≢ j
        → (o.file ≢ o'.file) × (number i ≢ number j)

  abbrev pub wired_rest : (o : Output) (outs : List Output) → Wired (o ∷ outs) → Wired outs
  wired_rest o outs v = record {
    room = v.room;
    from_file = v.from_file;
    middle = v.middle;
    source_writes = v.source_writes;
    source_reads = v.source_reads;
    number = λ i. v.number (suc i);
    writes = λ i. v.writes (suc i);
    reads = λ i. v.reads (suc i);
    file = λ i. v.file (suc i);
    not_source = λ i. v.not_source (suc i);
    not_middle = λ i. v.not_middle (suc i);
    apart = λ i j o o' e e' ne. v.apart (suc i) (suc j) o o' e e' (λ h. ne (omega (arith, h)));
  }
