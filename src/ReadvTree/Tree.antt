-- ===== src/ReadvTree/Tree.antt =====
-- All rounds: every output ends as a copy of the source.
use mathlib.Core.List.Perm
use mathlib.Core.List.{Perm}
use native.Mathlib.Bridge.{le_prop}
use native.Mathlib.Nat.{pow-suc}
use independent_study.Base.{
  ℕ, zero, suc, ◌+◌, ◌-◌, ◌*◌, ◌%◌, ◌^◌, ◌≤◌, ◌<◌, ◌≡◌, ap, sym, subst, ◌∙◌, min, ltb, ltb→lt,
  ltb→le, Bool-cases, inl, inr, List, length, get_elem?, get_elem?-some_lt, some, some_inj, ok,
  word_mod, arith,
}
use independent_study.Base.Sums.{weigh, weigh-Perm}
use independent_study.Base.Orders.{All-Perm, All-below, below-All, below, weigh-below}
use independent_study.Liburing.{Fd}
use independent_study.FileIo.{FileIo, Reliable}
use independent_study.ReadvTree.{chunk_size, tree_rounds, perform_readv_broadcast}
use independent_study.ReadvTree.Nodes.{Group, Node, Bounded, Holds}
use independent_study.ReadvTree.Rounds.{sends, iterations_lem}

pow_pos : (n : ℕ) → 1 ≤ 2 ^ n
pow_pos zero = omega arith
pow_pos (suc n) = omega (arith, pow-suc 2 n, pow_pos n)

module _ (io : FileIo) (rel : Reliable io chunk_size) (root : Fd) (outs : List Fd) (source : List ℕ)
    (group : Group io rel root outs) (schedule : ℕ → List ℕ)
    (each_once : (round : ℕ) → Perm (schedule round) (below (2 ^ round))) where
  open io use {World}
  open rel use {content, Ready}

  Holds-prop : (w : World) (i : ℕ) → IsProp (Holds io rel root outs source w i)
  Holds-prop w i = hlevel

  -- The nodes below `count` hold the source.
  abbrev Spread : World → ℕ → Type 0
  Spread w count = (i : ℕ) → i < count → Holds io rel root outs source w i

  -- The copies that have been made once min (2 ^ round, nodes) nodes hold the source.
  abbrev copies : ℕ → ℕ
  copies round = min (2 ^ round) (length outs + 1) - 1

  tree_rounds_lem :
      (left round : ℕ) (w : World)
      → Bounded io rel root outs source w
      → Spread w (2 ^ round)
      → (w' : World) × (tree_rounds io schedule left root outs round
            (copies round * length source % word_mod, w)
          ≡ ok (copies (round + left) * length source % word_mod, w'))
        × Spread w' (2 ^ (round + left))
  unfolding tree_rounds
  tree_rounds_lem zero round w small held =
      let same : round ≡ round + 0 = omega arith in
      (
        w,
        ap (λ n. ok (copies n * length source % word_mod, w)) same,
        subst (λ n. Spread w (2 ^ n)) same held,
      )
  tree_rounds_lem (suc left) round w small held =
      let stride = 2 ^ round in
      let once = Perm.symm (each_once round) in
      let a =
        iterations_lem io rel root outs source group stride (schedule round) (copies round) w
          (All-Perm (λ i. i < stride) (λ i. le_prop) once
            (All-below (λ i. i < stride) stride (λ i h. h)))
          small
          (All-Perm (Holds io rel root outs source w) (Holds-prop w) once
            (All-below (Holds io rel root outs source w) stride held)) in
      let received =
        All-Perm (λ i. Holds io rel root outs source a.world (i + stride))
          (λ i. Holds-prop a.world (i + stride)) (each_once round) a.received in
      let doubled : 2 ^ (round + 1) ≡ 2 * stride =
        ap (λ n. 2 ^ n) (omega arith) ∙ pow-suc 2 round ∙ omega arith in
      let spread : Spread a.world (2 ^ (round + 1)) = λ i h. elim (Bool-cases (ltb i stride)) [
        | inl low ↦ a.keeps i (held i (ltb→lt i stride low))
        | inr high ↦
            let le = ltb→le i stride high in
            subst (Holds io rel root outs source a.world) (omega (arith, le)) (
              below-All (λ j. Holds io rel root outs source a.world (j + stride)) stride
                (i - stride) received (omega (arith, le, doubled)))
      ] in
      let sum : copies round + weigh (sends io rel root outs source group stride) (schedule round)
          ≡ copies (round + 1) =
        omega (
          arith,
          weigh-Perm (sends io rel root outs source group stride) (each_once round),
          weigh-below stride stride (length outs + 1),
          doubled,
          pow_pos round,
        ) in
      let (w', e, all) = tree_rounds_lem left (round + 1) a.world a.bounded spread in
      let shift : round + 1 + left ≡ round + suc left = omega arith in
      (
        w',
        rw (a.result, tree_rounds)
            (ap
                (λ n.
                  tree_rounds io schedule left root outs (round + 1)
                    (n * length source % word_mod, a.world))
                sum
              ∙ e
              ∙ ap (λ n. ok (copies n * length source % word_mod, w')) shift),
        subst (λ n. Spread w' (2 ^ n)) shift all,
      )

  -- Where nothing fails, whatever the order within a round, on open, distinct files of which the
  -- outputs are for writing and none is larger than the source: with fewer than 2 ^ 31 nodes, so
  -- that no `int` overflows, and at least log2 of their number many rounds, the broadcast returns
  -- the source's size once for each output, modulo 2 ^ 64, and every output holds the bytes of the
  -- source.
  pub perform_readv_broadcast_lem :
      (ceil_log2 : ℕ → ℕ) (w : World)
      → length outs + 1 < 2 ^ 31
      → length outs + 1 ≤ 2 ^ ceil_log2 (length outs + 1)
      → Ready w
      → content root w ≡ source
      → ((i : ℕ) (fd : Fd) → get_elem? outs i ≡ some fd → length (content fd w) ≤ length source)
      → (w' : World) × (perform_readv_broadcast io schedule ceil_log2 root outs w
          ≡ ok (length outs * length source % word_mod, w'))
        × ((i : ℕ) (fd : Fd) → get_elem? outs i ≡ some fd → content fd w' ≡ source)
  unfolding perform_readv_broadcast
  perform_readv_broadcast_lem ceil_log2 w no_overflow enough ready has small =
      let rounds = ceil_log2 (length outs + 1) in
      let (w', e, spread) = tree_rounds_lem rounds 0 w bounded (λ i h. first i (omega arith)) in
      let all : copies (0 + rounds) ≡ length outs =
        let shift : 0 + rounds ≡ rounds = omega arith in
        omega (arith, enough, ap (λ n. copies n) shift) in
      (
        w',
        ap (λ n. tree_rounds io schedule rounds root outs 0 (n, w)) start
            ∙ e
            ∙ ap (λ n. ok (n * length source % word_mod, w')) all,
        λ i fd en.
            spread (suc i)
              (omega (
                arith,
                enough,
                get_elem?-some_lt outs i fd en,
                ap (λ n. 2 ^ n) (zero_rounds rounds),
              ))
              fd en,
      )
    where
      start : ◌≡◌ {A = ℕ} 0 (copies 0 * length source % word_mod)
      start =
          let none_yet : 0 ≡ copies 0 = omega arith in
          omega arith ∙ ap (λ n. n * length source % word_mod) none_yet

      zero_rounds : (n : ℕ) → 0 + n ≡ n
      zero_rounds n = omega arith

      at_root : (fd : Fd) → Node root outs 0 fd → content fd w ≡ source
      at_root fd en = ap (λ f. content f w) (sym (some_inj en)) ∙ has

      first : (i : ℕ) → i < 1 → Holds io rel root outs source w i
      first zero h = at_root
      first (suc i) h = absurd (omega arith)

      sizes : (i : ℕ) (fd : Fd) → Node root outs i fd → length (content fd w) ≤ length source
      sizes zero fd en = omega (arith, ap length (at_root fd en))
      sizes (suc i) fd en = small i fd en

      bounded : Bounded io rel root outs source w
      bounded = (ready, sizes)
