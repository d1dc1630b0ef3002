-- ===== src/Tee/Delivery/Branches.antt =====
-- One chain behind its first request: the chunk that stands in the source's pipe goes to each
-- output, by way of that output's pipe, and to the last one directly.
use independent_study.Base.{
  ℕ, zero, suc, ◌+◌, ◌≤◌, ◌≡◌, ◌≢◌, refl, ap, ap₂, sym, subst, ◌∙◌, List, [], ◌∷◌, ◌++◌, length,
  take, drop, get_elem?, some, some_inj, arith,
}
use independent_study.Base.Slices.{write_at}
use independent_study.Liburing.{Fd}
use independent_study.Kernel.{Kernel, Transfers, run_all, padded}
use independent_study.Kernel.Chunks.{chunk_bytes}
use independent_study.Kernel.Copies.{copied_next, take_part}
use independent_study.Tee.{Output, Source, tee_branch, drain_branch, drain_source}
use independent_study.Tee.Plan.{branches}
use independent_study.Tee.Delivery.{Wired, wired_rest}

-- What holds of the first item and of each later one.
pub each :
    {A : Type 0} (x : A) (xs : List A) (P : ℕ → A → Type 0)
    → P 0 x
    → ((i : ℕ) (y : A) → get_elem? xs i ≡ some y → P (suc i) y)
    → (i : ℕ) (y : A) → get_elem? (x ∷ xs) i ≡ some y
    → P i y
each x xs P here there zero y e = subst (P 0) (some_inj e) here
each x xs P here there (suc i) y e = there i y e

module _ (k : Kernel) (t : Transfers k) (s : Source) (src : List ℕ) (off len : ℕ)
    (fits : off + len ≤ length src) (small : len ≤ chunk_bytes) where
  open k use {World, run}
  open t use {content, held, splice_out, tee_copies}

  abbrev part : List ℕ
  part = take len (drop off src)

  -- The chunk stands in the source's pipe, and the outputs hold what is before it.
  pub record Before (outs : List Output) (v : Wired k t s outs) (w : World) : Type 0 where
    pub full : held v.middle w ≡ part
    pub clear : (i : ℕ) (o : Output) → get_elem? outs i ≡ some o → held (v.number i) w ≡ []
    pub so_far : (i : ℕ) (o : Output) → get_elem? outs i ≡ some o → content o.file w ≡ take off src

  pub record After (outs : List Output) (v : Wired k t s outs) (w w' : World) : Type 0 where
    pub empty : held v.middle w' ≡ []
    pub clear : (i : ℕ) (o : Output) → get_elem? outs i ≡ some o → held (v.number i) w' ≡ []
    pub moved :
        (i : ℕ) (o : Output) → get_elem? outs i ≡ some o → content o.file w' ≡ take (off + len) src
    pub other_files :
        (g : Fd)
        → ((i : ℕ) (o : Output) → get_elem? outs i ≡ some o → g ≢ o.file)
        → content g w' ≡ content g w
    pub other_pipes :
        (q : ℕ)
        → q ≢ v.middle
        → ((i : ℕ) (o : Output) → get_elem? outs i ≡ some o → q ≢ v.number i)
        → held q w' ≡ held q w

  -- What a whole transfer of the chunk leaves in the pipe that held it, and in the file.
  drained : (h : List ℕ) → h ≡ part → drop len h ≡ []
  drained h e = let (_, _, leaves) = take_part off len src fits in ap (drop len) e ∙ leaves

  appended :
      (h file : List ℕ)
      → h ≡ part
      → file ≡ take off src
      → write_at off (take len h) (padded off file) ≡ take (off + len) src
  appended h file e e' =
      let (_, takes, _) = take_part off len src fits in
      ap₂ (λ x y. write_at off (take len x) (padded off y)) e e'
      ∙ ap (λ x. write_at off x (padded off (take off src))) takes
      ∙ copied_next off len src fits

  enough : (h : List ℕ) → h ≡ part → len ≤ length h
  enough h e = let (size, _, _) = take_part off len src fits in omega (arith, size, ap length e)

  last_lem :
      (o : Output) (v : Wired k t s (o ∷ [])) (w : World)
      → Before (o ∷ []) v w
      → After (o ∷ []) v w (run (drain_source s o off len).request w)
  last_lem o v w b =
      let (left, put, others, files) =
        splice_out s.read_pipe o.file v.middle off len w v.source_reads (v.file 0 o refl)
          (enough _ b.full) in
      record {
        empty = left ∙ drained _ b.full;
        clear =
            each o [] (λ i o'. held (v.number i) (run (drain_source s o off len).request w) ≡ [])
              (others (v.number 0) (λ h. v.not_middle 0 o refl (sym h)) ∙ b.clear 0 o refl)
              (λ i o' e. cc);
        moved =
            each o []
              (λ i (o' : Output).
                content o'.file (run (drain_source s o off len).request w) ≡ take (off + len) src)
              (put ∙ appended _ _ b.full (b.so_far 0 o refl)) (λ i o' e. cc);
        other_files = λ g ne. files g (ne 0 o refl);
        other_pipes = λ q ne _. others q ne;
      }

  -- One output but the last: the chunk is copied into its pipe, and from there into its file.
  record Branched (o : Output) (outs : List Output) (v : Wired k t s (o ∷ outs)) (w w' : World)
      : Type 0 where
    full : held v.middle w' ≡ part
    clear_here : held (v.number 0) w' ≡ []
    moved_here : content o.file w' ≡ take (off + len) src
    files_same : (g : Fd) → g ≢ o.file → content g w' ≡ content g w
    pipes_same : (q : ℕ) → q ≢ v.number 0 → held q w' ≡ held q w

  branch_lem :
      (o : Output) (outs : List Output) (v : Wired k t s (o ∷ outs)) (w : World)
      → Before (o ∷ outs) v w
      → Branched o outs v w
          (run (drain_branch o off len).request (run (tee_branch s o len).request w))
  branch_lem o outs v w b =
      let w1 = run (tee_branch s o len).request w in
      let (_, takes, _) = take_part off len src fits in
      let (copied, others, files) =
        tee_copies s.read_pipe o.write_pipe v.middle (v.number 0) len w v.source_reads
          (v.writes 0 o refl) (v.not_middle 0 o refl) (enough _ b.full)
          (omega (arith, ap length (b.clear 0 o refl), v.room)) in
      let in_pipe : held (v.number 0) w1 ≡ part =
        copied ∙ ap₂ (λ x y. x ++ take len y) (b.clear 0 o refl) b.full ∙ takes in
      let (left, put, others', files') =
        splice_out o.read_pipe o.file (v.number 0) off len w1 (v.reads 0 o refl) (v.file 0 o refl)
          (enough _ in_pipe) in
      record {
        full =
            others' v.middle (v.not_middle 0 o refl)
            ∙ others v.middle (v.not_middle 0 o refl)
            ∙ b.full;
        clear_here = left ∙ drained _ in_pipe;
        moved_here = put ∙ appended _ _ in_pipe (files o.file ∙ b.so_far 0 o refl);
        files_same = λ g ne. files' g ne ∙ files g;
        pipes_same = λ q ne. others' q ne ∙ others q ne;
      }

  Before-rest :
      (o : Output) (outs : List Output) (v : Wired k t s (o ∷ outs)) (w w' : World)
      → Before (o ∷ outs) v w
      → Branched o outs v w w'
      → Before outs (wired_rest k t s o outs v) w'
  Before-rest o outs v w w' b m = record {
    full = m.full;
    clear = λ i x e.
        m.pipes_same (v.number (suc i))
          (λ h. (v.apart 0 (suc i) o x refl e (omega arith)).1 (sym h))
        ∙ b.clear (suc i) x e;
    so_far = λ i x e.
        m.files_same x.file (λ h. (v.apart 0 (suc i) o x refl e (omega arith)).0 (sym h))
        ∙ b.so_far (suc i) x e;
  }

  After-more :
      (o : Output) (outs : List Output) (v : Wired k t s (o ∷ outs)) (w w1 w' : World)
      → Branched o outs v w w1
      → After outs (wired_rest k t s o outs v) w1 w'
      → After (o ∷ outs) v w w'
  After-more o outs v w w1 w' m a =
      let pipe_kept =
        a.other_pipes (v.number 0) (λ h. v.not_middle 0 o refl (sym h))
          (λ i x e. (v.apart 0 (suc i) o x refl e (omega arith)).1) in
      let file_kept =
        a.other_files o.file (λ i x e. (v.apart 0 (suc i) o x refl e (omega arith)).0) in
      record {
        empty = a.empty;
        clear = each o outs (λ i x. held (v.number i) w' ≡ []) (pipe_kept ∙ m.clear_here) a.clear;
        moved =
            each o outs (λ i (x : Output). content x.file w' ≡ take (off + len) src)
              (file_kept ∙ m.moved_here) a.moved;
        other_files =
            λ g ne. a.other_files g (λ i x e. ne (suc i) x e) ∙ m.files_same g (ne 0 o refl);
        other_pipes = λ q ne ne'.
            a.other_pipes q ne (λ i x e. ne' (suc i) x e) ∙ m.pipes_same q (ne' 0 o refl);
      }

  -- The whole chain behind its first request.
  pub branches_lem :
      (o : Output) (outs : List Output) (v : Wired k t s (o ∷ outs)) (w : World)
      → Before (o ∷ outs) v w
      → After (o ∷ outs) v w (run_all k (branches s (o ∷ outs) off len) w)
  unfolding run_all
  branches_lem o [] v w b = last_lem o v w b
  branches_lem o (o' ∷ outs) v w b =
      let m = branch_lem o (o' ∷ outs) v w b in
      After-more o (o' ∷ outs) v w _ _ m (
        branches_lem o' outs (wired_rest k t s o (o' ∷ outs) v) _
          (Before-rest o (o' ∷ outs) v w _ b m))
