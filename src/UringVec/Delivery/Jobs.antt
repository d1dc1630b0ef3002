-- ===== src/UringVec/Delivery/Jobs.antt =====
-- The windows that a plan of `perform_uring_broadcast` is made of: they cover every output, and
-- each fits into its blocks.
use independent_study.Base.{
  concat, All-append, ℕ, ◌+◌, ◌-◌, ◌≤◌, ◌<◌, ◌≡◌, ◌≢◌, ◌⊎◌, inl, inr, refl, ap, ap₂, sym, subst,
  ◌∙◌, min, List, [], ◌∷◌, ◌++◌, map, get_elem?, zero, suc, some, some_inj, All, ◌==◌,
  if◌then◌else◌, arith,
}
use native.Mathlib.Decide.{dec_lt}
use independent_study.Base.Sums.{weigh, weigh-map, weigh-append}
use independent_study.Liburing.{Fd, Sqe, Iovec, iov_bytes}
use independent_study.Liburing.Links.{chains, all_chains, attach_pair}
use independent_study.UringVec.Pairs.{Paired}
use independent_study.Kernel.Vectors.{block_bytes, uses}
use independent_study.UringVec.{Data, window_size, read_sqe, write_sqe}
use independent_study.UringVec.Context.{Blocks, pointers, pointers-append}
use independent_study.UringVec.Windows.{Window, Tiles}
use independent_study.UringVec.Plan.{OutputTiles}
use independent_study.UringVec.Freed.{count_at}
use independent_study.UringVec.Delivery.{Job, job_size, asked}

-- The pairs of a plan: a request and the one that is linked to it.
abbrev pub pairs : List (Sqe Data) → List (List (Sqe Data))
pairs [] = []
pairs (rd ∷ []) = []
pairs (rd ∷ wr ∷ rest) = (rd ∷ wr ∷ []) ∷ pairs rest

pairs-append : (xs ys : List (Sqe Data)) → Paired xs → pairs (xs ++ ys) ≡ pairs xs ++ pairs ys
pairs-append [] ys p = refl
pairs-append (x ∷ []) ys p = absurd p
pairs-append (x ∷ x' ∷ xs) ys p = ap (λ qs. (x ∷ x' ∷ []) ∷ qs) (pairs-append xs ys p.1)

chains-pairs : (xs : List (Sqe Data)) → Paired xs → chains xs ≡ pairs xs
chains-pairs [] p = refl
chains-pairs (x ∷ []) p = absurd p
chains-pairs (x ∷ x' ∷ xs) p =
    attach_pair x x' (chains xs) p.0.linked p.0.last
    ∙ ap (λ qs. (x ∷ x' ∷ []) ∷ qs) (chains-pairs xs p.1)

-- The links of batches of whole pairs are those of the pairs.
pub all_chains-pairs :
    (batches : List (List (Sqe Data)))
    → All Paired batches
    → all_chains batches ≡ pairs (concat batches)
all_chains-pairs [] p = refl
all_chains-pairs (b ∷ batches) p =
    ap₂ (λ x y. x ++ y) (chains-pairs b p.0) (all_chains-pairs batches p.1)
    ∙ sym (pairs-append b (concat batches) p.0)

abbrev requests : Fd → List Job → List (Sqe Data)
requests input [] = []
requests input (j ∷ js) =
    read_sqe input j.context j.at ∷ write_sqe j.output j.context j.at ∷ requests input js

pub pairs-requests : (input : Fd) (js : List Job) → pairs (requests input js) ≡ map (asked input) js
pairs-requests input [] = refl
pairs-requests input (j ∷ js) = ap (λ qs. asked input j ∷ qs) (pairs-requests input js)

requests-append :
    (input : Fd) (js js' : List Job)
    → requests input (js ++ js') ≡ requests input js ++ requests input js'
requests-append input [] js' = refl
requests-append input (j ∷ js) js' =
    ap (λ l. read_sqe input j.context j.at ∷ write_sqe j.output j.context j.at ∷ l)
      (requests-append input js js')

-- Some window of the output has the byte at a position.
abbrev pub Covers : Fd → ℕ → List Job → Type 0
Covers out x [] = ⊥
Covers out x (j ∷ js) = ((j.output ≡ out) × (j.at ≤ x) × (x < j.at + job_size j)) ⊎ Covers out x js

Covers-left : (out : Fd) (x : ℕ) (js js' : List Job) → Covers out x js → Covers out x (js ++ js')
Covers-left out x [] js' c = absurd c
Covers-left out x (j ∷ js) js' (inl here) = inl here
Covers-left out x (j ∷ js) js' (inr c) = inr (Covers-left out x js js' c)

Covers-right : (out : Fd) (x : ℕ) (js js' : List Job) → Covers out x js' → Covers out x (js ++ js')
Covers-right out x [] js' c = c
Covers-right out x (j ∷ js) js' c = inr (Covers-right out x js js' c)

-- The blocks are no longer than a block, the window ends in the file, and the output is not the
-- input.
pub record IsFitting (input : Fd) (sz : ℕ) (j : Job) : Type 0 where
  pub lengths : All (λ v. v.iov_len ≤ block_bytes) j.context.iovecs
  pub inside : j.at + job_size j ≤ sz
  pub away : input ≢ j.output

Blocks-sum : (vs : List Iovec) (n : ℕ) → Blocks vs n → iov_bytes vs ≡ n
Blocks-sum [] n b = omega (arith, b)
Blocks-sum (v ∷ vs) n (e, pos, b) = omega (arith, e, Blocks-sum vs (n - v.iov_len) b)

Blocks-lengths : (vs : List Iovec) (n : ℕ) → Blocks vs n → All (λ v. v.iov_len ≤ block_bytes) vs
Blocks-lengths [] n b = tt
Blocks-lengths (v ∷ vs) n (e, pos, b) = (omega (arith, e), Blocks-lengths vs (n - v.iov_len) b)

-- The windows of a plan. The addresses of their blocks are those that the plan holds.
pub record Listed (input : Fd) (sz : ℕ) (plan : List (Sqe Data)) : Type 0 where
  pub jobs : List Job
  pub same : plan ≡ requests input jobs
  pub fit : All (IsFitting input sz) jobs
  pub blocks :
      (q : ℕ) → weigh (λ (j : Job). uses q j.context.iovecs) jobs ≡ count_at q (pointers plan)

none_listed : (input : Fd) (sz : ℕ) → Listed input sz []
none_listed input sz = record { jobs = []; same = refl; fit = tt; blocks = λ q. refl }

module _ (input out : Fd) (sz : ℕ) where
  Window-blocks :
      (from : ℕ) (rd wr : Sqe Data) (plan : List (Sqe Data)) (w : Window input out 0 sz from rd wr)
      (q : ℕ)
      → count_at q (pointers (rd ∷ wr ∷ plan))
        ≡ uses q w.context.iovecs + count_at q (pointers plan)
  Window-blocks from rd wr plan w q =
      let weight : ℕ → ℕ = λ p. if p == q then 1 else 0 in
      ap₂ (λ (s s' : Sqe Data). count_at q (pointers (s ∷ s' ∷ plan))) w.reads w.writes
      ∙ weigh-append weight w.context.raw_pointers (pointers plan)
      ∙ ap (λ ps. count_at q ps + count_at q (pointers plan)) w.owned
      ∙ ap (λ n. n + count_at q (pointers plan))
          (weigh-map weight (λ (v : Iovec). v.iov_base) w.context.iovecs)

  record OneListed (from : ℕ) (plan : List (Sqe Data)) : Type 0 where
    listed : Listed input sz plan
    covers : (x : ℕ) → from ≤ x → x < sz → Covers out x listed.jobs

  module _ (away : input ≢ out) where
    Tiles-Listed :
        (from : ℕ) (plan : List (Sqe Data)) → Tiles input out 0 sz from plan → OneListed from plan
    Tiles-Listed from [] t = record {
      listed = none_listed input sz;
      covers = λ x le lt. absurd (omega (arith, t, le, lt));
    }
    Tiles-Listed from (rd ∷ []) t = absurd t
    Tiles-Listed from (rd ∷ wr ∷ plan) (w, t) =
        let rest = Tiles-Listed (from + min window_size (sz - from)) plan t in
        let j : Job = record { output = out; context = w.context; at = 0 + from } in
        let size : job_size j ≡ min window_size (sz - from) = Blocks-sum _ _ w.covers in
        record {
          listed = record {
            jobs = j ∷ rest.listed.jobs;
            same =
                ap₂ (λ a b. a ∷ b ∷ plan) w.reads w.writes
                ∙ ap (λ l. read_sqe input j.context j.at ∷ write_sqe out j.context j.at ∷ l)
                    rest.listed.same;
            fit = (
              record {
                lengths = Blocks-lengths w.context.iovecs _ w.covers;
                inside = omega (arith, size, w.inside);
                away = away;
              },
              rest.listed.fit,
            );
            blocks = λ q. omega (arith, rest.listed.blocks q, Window-blocks from rd wr plan w q);
          };
          covers = λ x le lt. elim (dec_lt x (0 + from + job_size j)) [
            | yes here ↦ inl (refl, omega (arith, le), here)
            | no h ↦ inr (rest.covers x (omega (arith, size)) lt)
          ];
        }

module _ (input : Fd) (sz : ℕ) where
  Listed-append :
      (plan plan' : List (Sqe Data)) (a : Listed input sz plan) (b : Listed input sz plan')
      → Listed input sz (plan ++ plan')
  Listed-append plan plan' a b = record {
    jobs = a.jobs ++ b.jobs;
    same = ap₂ (λ l l'. l ++ l') a.same b.same ∙ sym (requests-append input a.jobs b.jobs);
    fit = All-append (IsFitting input sz) a.jobs b.jobs a.fit b.fit;
    blocks = λ q. omega (
      arith,
      weigh-append (λ (j : Job). uses q j.context.iovecs) a.jobs b.jobs,
      a.blocks q,
      b.blocks q,
      ap (count_at q) (pointers-append plan plan'),
      weigh-append (λ (p : ℕ). if p == q then 1 else 0) (pointers plan) (pointers plan'),
    );
  }

  pub record AllListed (outs : List Fd) (plan : List (Sqe Data)) : Type 0 where
    pub listed : Listed input sz plan
    pub covers :
        (i : ℕ) (out : Fd) (x : ℕ) → get_elem? outs i ≡ some out → x < sz → Covers out x listed.jobs

  first_or_later :
      (js js' : List Job) (out : Fd) (outs : List Fd)
      → ((x : ℕ) → x < sz → Covers out x js)
      → ((i : ℕ) (o : Fd) (x : ℕ) → get_elem? outs i ≡ some o → x < sz → Covers o x js')
      → (i : ℕ) (o : Fd) (x : ℕ) → get_elem? (out ∷ outs) i ≡ some o
      → x < sz
      → Covers o x (js ++ js')
  first_or_later js js' out outs first later zero o x e lt =
      Covers-left o x js js' (subst (λ g. Covers g x js) (some_inj e) (first x lt))
  first_or_later js js' out outs first later (suc i) o x e lt =
      Covers-right o x js js' (later i o x e lt)

  pub OutputTiles-Listed :
      (outs : List Fd) (plan : List (Sqe Data))
      → All (λ out. input ≢ out) outs
      → OutputTiles input sz outs plan
      → AllListed outs plan
  unfolding Listed-append
  OutputTiles-Listed [] plan away t = record {
    listed = subst (Listed input sz) (sym t) (none_listed input sz);
    covers = λ i out x e lt. cc;
  }
  OutputTiles-Listed (out ∷ outs) plan away (here, rest, e, t, more) =
      let a = Tiles-Listed input out sz away.0 0 here t in
      let b = OutputTiles-Listed outs rest away.1 more in
      subst (AllListed (out ∷ outs)) (sym e) (record {
        listed = Listed-append here rest a.listed b.listed;
        covers =
            first_or_later a.listed.jobs b.listed.jobs out outs
              (λ x lt. a.covers x (omega arith) lt) b.covers;
      })
