-- ===== src/Tee/Delivery/Chains.antt =====
-- All chains of the tee broadcast, one chunk after the other.
use independent_study.Base.{
  ℕ, zero, suc, ◌+◌, ◌*◌, ◌<◌, ◌≡◌, refl, ap, sym, subst, ◌∙◌, List, [], ◌∷◌, ◌++◌, concat, length,
  take, drop, get_elem?, some, ok, pos, word_mod, arith,
}
use independent_study.Liburing.{Sqe, Cqe, Liburing}
use independent_study.Kernel.{Kernel, Transfers, run_all}
use independent_study.Kernel.Chunks.{
  chunk_bytes, chunks_in, chunk_length, bytes_before, chunk_fits, next_bytes, all_bytes,
}
use independent_study.Tee.{Output, Source, Progress, queue_depth, fill_source, broadcast}
use independent_study.Tee.Plan.{chain, chains_from, chunk_count, AllSucceed}
use independent_study.Tee.Complete.{tee_complete}
use independent_study.Tee.Delivery.{Wired}
use independent_study.Tee.Delivery.Branches.{Before, branches_lem}

run_all-append :
    {D : Type 0} (k : Kernel) (xs ys : List (Sqe D)) (w : k.World)
    → run_all k (xs ++ ys) w ≡ run_all k ys (run_all k xs w)
unfolding run_all
run_all-append k [] ys w = refl
run_all-append k (x ∷ xs) ys w = run_all-append k xs ys (k.run x.request w)

module _ (k : Kernel) (t : Transfers k) (s : Source) (o : Output) (os : List Output)
    (v : Wired k t s (o ∷ os)) (src : List ℕ) where
  open k use {World, run}
  open t use {content, held, splice_in}

  -- Between two chunks: the pipes are empty, and the outputs hold what is before the j-th chunk.
  pub record At (j : ℕ) (w : World) : Type 0 where
    pub source_whole : content s.file w ≡ src
    pub no_held : held v.middle w ≡ []
    pub clear : (i : ℕ) (x : Output) → get_elem? (o ∷ os) i ≡ some x → held (v.number i) w ≡ []
    pub so_far :
        (i : ℕ) (x : Output) → get_elem? (o ∷ os) i ≡ some x → content x.file w ≡ bytes_before j src

  chain-At :
      (j n : ℕ) (w : World)
      → j + suc n ≡ chunks_in (length src)
      → At j w
      → At (j + 1) (run_all k (chain s (o ∷ os) (length src) j) w)
  unfolding run_all
  chain-At j n w count a =
      let off = j * chunk_bytes in
      let len = chunk_length (length src) j in
      let fits = chunk_fits (length src) j n count in
      let w1 = run (fill_source s off len).request w in
      let (into, others, files) =
        splice_in s.file s.write_pipe v.middle off len w v.from_file v.source_writes
          (omega (arith, fits, ap length a.source_whole))
          (omega (arith, ap length a.no_held, v.room)) in
      let b : Before k t s src off len fits (omega arith) (o ∷ os) v w1 = record {
        full =
            into
            ∙ ap (λ h. h ++ take len (drop off (content s.file w))) a.no_held
            ∙ ap (λ c. take len (drop off c)) a.source_whole;
        clear = λ i x e. others (v.number i) (λ h. v.not_middle i x e (sym h)) ∙ a.clear i x e;
        so_far = λ i x e. files x.file ∙ a.so_far i x e;
      } in
      let done = branches_lem k t s src off len fits (omega arith) o os v w1 b in
      record {
        source_whole = done.other_files s.file v.not_source ∙ files s.file ∙ a.source_whole;
        no_held = done.empty;
        clear = done.clear;
        so_far = λ i x e. done.moved i x e ∙ next_bytes src j n count;
      }

  chains-At :
      (j n : ℕ) (w : World)
      → j + n ≡ chunks_in (length src)
      → At j w
      → At (j + n) (run_all k (concat (chains_from s (o ∷ os) (length src) j n)) w)
  unfolding chains_from run_all
  chains-At j zero w count a = let same : j ≡ j + 0 = omega arith in subst (λ i. At i w) same a
  chains-At j (suc n) w count a =
      let shift : j + 1 + n ≡ j + suc n = omega arith in
      let one = chain s (o ∷ os) (length src) j in
      let more = concat (chains_from s (o ∷ os) (length src) (j + 1) n) in
      subst (λ i. At i (run_all k (one ++ more) w)) shift
        (subst (At (j + 1 + n)) (sym (run_all-append k one more w))
          (chains-At (j + 1) n (run_all k one w) (omega (arith, count)) (chain-At j n w count a)))

  pub delivered :
      (w : World)
      → At 0 w
      → (i : ℕ) (x : Output) → get_elem? (o ∷ os) i ≡ some x
      → content x.file
          (run_all k (concat (chains_from s (o ∷ os) (length src) 0 (chunk_count (length src)))) w)
        ≡ src
  delivered w a i x e =
      let end = chains-At 0 (chunks_in (length src)) w (omega arith) a in
      let all : 0 + chunks_in (length src) ≡ chunks_in (length src) = omega arith in
      end.so_far i x e ∙ ap (λ j. bytes_before j src) all ∙ all_bytes src

-- Let a file with the bytes `src`, fewer than 2 ^ 64, go to at least one and at most 512 outputs,
-- and let all requests of each chain succeed. Let the source and the outputs have files and pipes
-- of their own, the pipes and the outputs be empty at first, and the kernel carry out the submitted
-- requests in their order, each as a whole transfer. Then the broadcast ends, and each output holds
-- exactly the bytes of the source.
pub tee_delivers :
    (u : Liburing ℕ) (k : Kernel) (t : Transfers k) (s : Source) (o : Output) (os : List Output)
    (v : Wired k t s (o ∷ os)) (src : List ℕ) (r : u.Ring) (replies : List (List (Cqe ℕ)))
    (w : k.World)
    → length os < 512
    → length src < word_mod
    → u.queue_init queue_depth ≡ some r
    → AllSucceed (chains_from s (o ∷ os) (length src) 0 (chunk_count (length src))) replies
    → At k t s o os v src 0 w
    → (p : Progress u) × (broadcast u r (pos (length src)) s (o ∷ os) replies ≡ ok p)
      × ((i : ℕ) (x : Output)
          → get_elem? (o ∷ os) i ≡ some x
          → t.content x.file (run_all k (concat (u.batches p.ring)) w) ≡ src)
tee_delivers u k t s o os v src r replies w few small e succeeding a =
    let (p, done, submitted, _, _) =
      tee_complete u r s o os (length src) replies few small e succeeding in
    (
      p,
      done,
      λ i x there.
          ap (λ bs. t.content x.file (run_all k (concat bs) w)) submitted
          ∙ delivered k t s o os v src w a i x there,
    )
