-- ===== src/Splice/Delivery.antt =====
-- Which bytes reach an output, where the kernel carries out the two requests of a chunk as whole
-- transfers: the stages of one output, from the requests that are still to come.
pub mod Any
pub mod Submitted
pub mod Race
mod Tests
use independent_study.Base.{
  ℕ, zero, suc, ◌+◌, ◌-◌, ◌*◌, ◌≤◌, ◌≡◌, ◌≢◌, refl, ap, subst, ◌∙◌, List, [], ◌∷◌, ◌++◌, length,
  take, drop, none, some, arith,
}
use independent_study.Base.Slices.{write_at}
use independent_study.Liburing.{Fd, Sqe}
use independent_study.Kernel.{Kernel, Transfers, padded}
use independent_study.Kernel.Copies.{copied_next, take_part}
use independent_study.Kernel.Chunks.{chunk_length, bytes_before, chunk_fits, next_bytes, all_bytes}
use independent_study.Splice.{splice_chunk_size, Output, fill_pipe, drain_pipe}
use independent_study.Splice.Plan.{chunks_from, chunk_count}

module _ (k : Kernel) (t : Transfers k) where
  open t use {pipe_of}

  -- The output and its pipe are what they should be.
  pub record Ends (o : Output) (p : ℕ) : Type 0 where
    pub writes : pipe_of o.write_pipe ≡ some p
    pub reads : pipe_of o.read_pipe ≡ some p
    pub file : pipe_of o.file ≡ none

module _ (k : Kernel) (t : Transfers k) (source : Fd) (src : List ℕ) where
  open k use {World, run}
  open t use {pipe_of, capacity, content, held, splice_in, splice_out}

  -- Where output `o` with its pipe p stands, of which the requests q are still to come: between
  -- two chunks, or with the j-th chunk in the pipe.
  pub data Stage (o : Output) (p : ℕ) (w : World) (q : List (Sqe ℕ)) : Type 0 where
    between :
        (j n : ℕ)
        → q ≡ chunks_from source (o ∷ []) (length src) j n
        → j + n ≡ chunk_count (length src)
        → held p w ≡ []
        → content o.file w ≡ bytes_before j src
        → Stage o p w q
    filled :
        (j n : ℕ)
        → q
          ≡ drain_pipe o (j * splice_chunk_size) (chunk_length (length src) j)
            ∷ chunks_from source (o ∷ []) (length src) (j + 1) n
        → j + suc n ≡ chunk_count (length src)
        → held p w ≡ take (chunk_length (length src) j) (drop (j * splice_chunk_size) src)
        → content o.file w ≡ bytes_before j src
        → Stage o p w q

  -- The next stage, and what a request leaves alone.
  pub record Moved (o : Output) (p : ℕ) (w w' : World) (rest : List (Sqe ℕ)) : Type 0 where
    pub stage : Stage o p w' rest
    pub other_pipes : (q : ℕ) → q ≢ p → held q w' ≡ held q w
    pub other_files : (g : Fd) → g ≢ o.file → content g w' ≡ content g w

  pub Stage-same :
      (o : Output) (p : ℕ) (w w' : World) (q : List (Sqe ℕ))
      → held p w' ≡ held p w
      → content o.file w' ≡ content o.file w
      → Stage o p w q
      → Stage o p w' q
  Stage-same o p w w' q h c (between j n e count empty here) =
      between j n e count (h ∙ empty) (c ∙ here)
  Stage-same o p w w' q h c (filled j n e count full here) =
      filled j n e count (h ∙ full) (c ∙ here)

  -- With no request to come, the file holds all bytes.
  pub Stage-last :
      (o : Output) (p : ℕ) (w : World) (q : List (Sqe ℕ))
      → Stage o p w q
      → q ≡ []
      → content o.file w ≡ src
  unfolding chunks_from
  Stage-last o p w q (between j zero e count empty here) none_left =
      let last : j ≡ chunk_count (length src) = omega (arith, count) in
      here ∙ ap (λ i. bytes_before i src) last ∙ all_bytes src
  Stage-last o p w q (between j (suc n) e count empty here) none_left = cc
  Stage-last o p w q (filled j n e count full here) none_left = cc

  module _ (from_file : pipe_of source ≡ none) (room : splice_chunk_size ≤ capacity) (o : Output)
      (p : ℕ) (ends : Ends k t o p) (w : World) where
    filling :
        (j n : ℕ)
        → j + suc n ≡ chunk_count (length src)
        → held p w ≡ []
        → content o.file w ≡ bytes_before j src
        → content source w ≡ src
        → Moved o p w
            (run
              (fill_pipe source o (j * splice_chunk_size) (chunk_length (length src) j)).request
              w)
            (drain_pipe o (j * splice_chunk_size) (chunk_length (length src) j)
              ∷ chunks_from source (o ∷ []) (length src) (j + 1) n)
    filling j n count empty here whole =
        let off = j * splice_chunk_size in
        let len = chunk_length (length src) j in
        let (into, others, files) =
          splice_in source o.write_pipe p off len w from_file ends.writes
            (omega (arith, chunk_fits (length src) j n count, ap length whole))
            (omega (arith, ap length empty)) in
        record {
          stage =
              filled j n refl count
                (into
                  ∙ ap (λ h. h ++ take len (drop off (content source w))) empty
                  ∙ ap (λ c. take len (drop off c)) whole)
                (files o.file ∙ here);
          other_pipes = others;
          other_files = λ g ne. files g;
        }

    draining :
        (j n : ℕ)
        → j + suc n ≡ chunk_count (length src)
        → held p w ≡ take (chunk_length (length src) j) (drop (j * splice_chunk_size) src)
        → content o.file w ≡ bytes_before j src
        → Moved o p w
            (run (drain_pipe o (j * splice_chunk_size) (chunk_length (length src) j)).request w)
            (chunks_from source (o ∷ []) (length src) (j + 1) n)
    draining j n count full here =
        let off = j * splice_chunk_size in
        let len = chunk_length (length src) j in
        let fits = chunk_fits (length src) j n count in
        let (size, takes, leaves) = take_part off len src fits in
        let (left, put, others, files) =
          splice_out o.read_pipe o.file p off len w ends.reads ends.file
            (omega (arith, size, ap length full)) in
        record {
          stage =
              between (j + 1) n refl (omega (arith, count)) (left ∙ ap (drop len) full ∙ leaves) (
                put
                ∙ ap (λ h. write_at off (take len h) (padded off (content o.file w))) full
                ∙ ap (λ part. write_at off part (padded off (content o.file w))) takes
                ∙ ap (λ c. write_at off (take len (drop off src)) (padded off c)) here
                ∙ copied_next off len src fits
                ∙ next_bytes src j n count);
          other_pipes = others;
          other_files = files;
        }

    -- The next request of the output.
    pub advance :
        (q : List (Sqe ℕ)) (s : Sqe ℕ) (rest : List (Sqe ℕ))
        → Stage o p w q
        → q ≡ s ∷ rest
        → content source w ≡ src
        → Moved o p w (run s.request w) rest
    unfolding chunks_from
    advance q s rest (between j zero e count empty here) next whole = cc
    advance q s rest (between j (suc n) e count empty here) next whole =
        let head : fill_pipe source o (j * splice_chunk_size) (chunk_length (length src) j) ≡ s =
          cc in
        let tail : drain_pipe o (j * splice_chunk_size) (chunk_length (length src) j)
              ∷ chunks_from source (o ∷ []) (length src) (j + 1) n
            ≡ rest =
          cc in
        subst (λ x. Moved o p w (run x.request w) rest) head
          (subst (Moved o p w _) tail (filling j n count empty here whole))
    advance q s rest (filled j n e count full here) next whole =
        let head : drain_pipe o (j * splice_chunk_size) (chunk_length (length src) j) ≡ s = cc in
        let tail : chunks_from source (o ∷ []) (length src) (j + 1) n ≡ rest = cc in
        subst (λ x. Moved o p w (run x.request w) rest) head
          (subst (Moved o p w _) tail (draining j n count full here))
