-- ===== src/Tee/Plan.antt =====
-- The chain of requests for each chunk, and what it means that a chain succeeds.
use mathlib.Core.List.{Perm}
use independent_study.Base.{
  ℕ, zero, suc, ◌+◌, ◌-◌, ◌*◌, ◌/◌, ◌%◌, ◌<◌, ◌≡◌, ap, ◌∙◌, sym, min, false, List, [], ◌∷◌, length,
  map, All, is_negative, word_mod, arith,
}
use independent_study.Base.Sums.{weigh, weigh-Perm, weigh-map, weigh-one}
use independent_study.Liburing.{Sqe, Cqe}
use independent_study.Tee.{
  Output, Source, chunk_size, fill_source, tee_branch, drain_branch, drain_source, count_cqe,
  count_cqes,
}

abbrev pub branches : Source → List Output → ℕ → ℕ → List (Sqe ℕ)
branches s [] off len = []
branches s (o ∷ []) off len = drain_source s o off len ∷ []
branches s (o ∷ o' ∷ os) off len =
    tee_branch s o len ∷ drain_branch o off len ∷ branches s (o' ∷ os) off len

-- The chain for the k-th chunk of a file of `sz` bytes.
abbrev pub chain : Source → List Output → ℕ → ℕ → List (Sqe ℕ)
chain s outs sz k =
    let off = k * chunk_size in
    let len = min chunk_size (sz - off) in fill_source s off len ∷ branches s outs off len

-- `n` chains from the k-th chunk on.
unfoldable pub chains_from : Source → List Output → ℕ → ℕ → ℕ → List (List (Sqe ℕ))
chains_from s outs sz k zero = []
chains_from s outs sz k (suc n) = chain s outs sz k ∷ chains_from s outs sz (k + 1) n

abbrev pub chunk_count : ℕ → ℕ
chunk_count sz = (sz + chunk_size - 1) / chunk_size

-- One completion for each request, in any order, and none of them an error.
pub record Succeeds (ss : List (Sqe ℕ)) (cs : List (Cqe ℕ)) : Type 0 where
  pub complete : Perm (map (λ (c : Cqe ℕ). c.user_data) cs) (map (λ (s : Sqe ℕ). s.user_data) ss)
  pub succeeded : All (λ (c : Cqe ℕ). is_negative c.res ≡ false) cs

abbrev pub AllSucceed : List (List (Sqe ℕ)) → List (List (Cqe ℕ)) → Type 0
AllSucceed [] [] = Unit
AllSucceed [] (cs ∷ css) = ⊥
AllSucceed (ss ∷ sss) [] = ⊥
AllSucceed (ss ∷ sss) (cs ∷ css) = Succeeds ss cs × AllSucceed sss css

pub length-branches :
    (s : Source) (o : Output) (outs : List Output) (off len : ℕ)
    → length (branches s (o ∷ outs) off len) ≡ 1 + 2 * length outs
length-branches s o [] off len = omega arith
length-branches s o (o' ∷ outs) off len = omega (arith, length-branches s o' outs off len)

branches_data :
    (s : Source) (outs : List Output) (off len : ℕ)
    → weigh (λ (q : Sqe ℕ). q.user_data) (branches s outs off len) ≡ length outs * len
branches_data s [] off len = omega arith
branches_data s (o ∷ []) off len = omega arith
branches_data s (o ∷ o' ∷ outs) off len = omega (arith, branches_data s (o' ∷ outs) off len)

count_cqe_ok :
    (moved : ℕ) (c : Cqe ℕ)
    → is_negative c.res ≡ false
    → moved < word_mod
    → count_cqe moved c ≡ (moved + c.user_data) % word_mod
unfolding count_cqe
count_cqe_ok moved c h lt = ground arith

count_cqes-sum :
    (moved : ℕ) (cs : List (Cqe ℕ))
    → All (λ (c : Cqe ℕ). is_negative c.res ≡ false) cs
    → moved < word_mod
    → count_cqes moved cs ≡ (moved + weigh (λ (c : Cqe ℕ). c.user_data) cs) % word_mod
unfolding count_cqes count_cqe
count_cqes-sum moved [] h lt = omega arith
count_cqes-sum moved (c ∷ cs) h lt =
    let one = count_cqe_ok moved c h.0 lt in
    ap (λ n. count_cqes n cs) one
    ∙ count_cqes-sum ((moved + c.user_data) % word_mod) cs h.1 (omega arith)
    ∙ omega arith

-- A chain that succeeds moves its chunk once for each output.
pub Succeeds-moved :
    (s : Source) (outs : List Output) (sz k moved : ℕ) (cs : List (Cqe ℕ))
    → Succeeds (chain s outs sz k) cs
    → moved < word_mod
    → count_cqes moved cs ≡ (moved + length outs * min chunk_size (sz - k * chunk_size)) % word_mod
Succeeds-moved s outs sz k moved cs h lt =
    count_cqes-sum moved cs h.succeeded lt
    ∙ ap (λ n. (moved + n) % word_mod)
        (sym (weigh-map (λ n. n) (λ (c : Cqe ℕ). c.user_data) cs)
          ∙ weigh-Perm (λ n. n) h.complete
          ∙ weigh-map (λ n. n) (λ (q : Sqe ℕ). q.user_data) (chain s outs sz k)
          ∙ omega
              (arith, branches_data s outs (k * chunk_size) (min chunk_size (sz - k * chunk_size))))

pub Succeeds-length :
    (ss : List (Sqe ℕ)) (cs : List (Cqe ℕ)) → Succeeds ss cs → length cs ≡ length ss
Succeeds-length ss cs h =
    sym (weigh-one cs)
    ∙ sym (weigh-map (λ _. 1) (λ (c : Cqe ℕ). c.user_data) cs)
    ∙ weigh-Perm (λ _. 1) h.complete
    ∙ weigh-map (λ _. 1) (λ (q : Sqe ℕ). q.user_data) ss
    ∙ weigh-one ss
