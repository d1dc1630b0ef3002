-- ===== src/UringVec/Delivery/Any.antt =====
-- All windows together: the two requests of a window come in order, those of different windows in
-- any order.
use independent_study.Base.{
  ℕ, ◌≤◌, ◌<◌, ◌≡◌, ◌≢◌, refl, ap, sym, subst, ◌∙◌, inl, inr, Bool-cases, ◌==◌, ==_iff, ==_ne, List,
  [], ◌∷◌, length, map, set, get_elem?, get_elem?-lt, get_elem?-some_lt, get_elem?-set_self,
  get_elem?-set_ne, length-set, length-map, get_elem?-map, some_inj, some, arith,
}
use independent_study.Base.Orders.{All-get_elem?}
use independent_study.Base.Interleave.{Interleave, finished, taken}
use independent_study.Liburing.{Fd, Sqe}
use independent_study.Kernel.{Kernel, run_all}
use independent_study.Kernel.Vectors.{Vectors, Disjoint}
use independent_study.UringVec.{Data}
use independent_study.UringVec.Delivery.{
  Job, asked, Written, Stage, waiting, loaded, stored, Stage-spared, IsReady, Moved,
}
use independent_study.UringVec.Delivery.Steps.{advance}

module _ (k : Kernel) (v : Vectors k) (input : Fd) (src : List ℕ) (js : List Job)
    (ready : (i : ℕ) (j : Job) → get_elem? js i ≡ some j → IsReady k v input src j)
    (apart : (i i' : ℕ) (j j' : Job)
      → get_elem? js i ≡ some j
      → get_elem? js i' ≡ some j'
      → i ≢ i'
      → Disjoint j'.context.iovecs j.context.iovecs) where
  open v use {content}

  -- The pairs of the windows, with the stage that each has come to.
  record Under (qs : List (List (Sqe Data))) (w : k.World) : Type 0 where
    whole : content input w ≡ src
    many : length qs ≡ length js
    stages :
        (i : ℕ) (j : Job) (q : List (Sqe Data))
        → get_elem? js i ≡ some j
        → get_elem? qs i ≡ some q
        → Stage k v input src j w q

  taken-Under :
      (qs : List (List (Sqe Data))) (w w' : k.World) (i : ℕ) (j : Job) (rest : List (Sqe Data))
      → Under qs w
      → i < length qs
      → get_elem? js i ≡ some j
      → Moved k v input src j w w' rest
      → Under (set qs i rest) w'
  taken-Under qs w w' i j rest u lt e m = record {
    whole = m.source_same ∙ u.whole;
    many = length-set qs i rest ∙ u.many;
    stages = λ i' j' q e' there. elim (Bool-cases (i == i')) [
      | inr b ↦
          let ne = ==_ne i i' b in
          Stage-spared k v input src j j' w w' q m.spares (apart i i' j j' e e' ne) (ready i' j' e')
            (u.stages i' j' q e' (sym (get_elem?-set_ne qs i i' rest ne) ∙ there))
      | inl same ↦
          let eq = (==_iff i i').0 same in
          let here : j ≡ j' = some_inj (sym e ∙ ap (get_elem? js) eq ∙ e') in
          let queue : rest ≡ q =
            some_inj
              (sym (get_elem?-set_self qs i rest lt) ∙ ap (get_elem? (set qs i rest)) eq ∙ there) in
          subst (λ x. Stage k v input src x w' q) here
            (subst (Stage k v input src j w') queue m.stage)
    ];
  }

  -- What the theorem is about: every window's bytes stand in its output, and the outputs that were
  -- no longer than the source are no longer than it.
  pub record Arrived (w w' : k.World) : Type 0 where
    pub written : (i : ℕ) (j : Job) → get_elem? js i ≡ some j → Written k v input src j w'
    pub lengths : (g : Fd) → length (content g w) ≤ length src → length (content g w') ≤ length src

  last-Written :
      (j : Job) (w : k.World) (q : List (Sqe Data))
      → Stage k v input src j w q
      → q ≡ []
      → Written k v input src j w
  last-Written j w q (waiting e) none_left = cc
  last-Written j w q (loaded e full) none_left = cc
  last-Written j w q (stored e there) none_left = there

  pairs_arrive :
      (qs : List (List (Sqe Data))) (ss : List (Sqe Data)) (w : k.World)
      → Interleave qs ss
      → Under qs w
      → Arrived w (run_all k ss w)
  unfolding run_all
  pairs_arrive qs [] w (finished _ all) u = record {
    written = λ i j e.
        let (q, there) = get_elem?-lt qs i (omega (arith, u.many, get_elem?-some_lt js i j e)) in
        last-Written j w q (u.stages i j q e there) (All-get_elem? (λ x. x ≡ []) qs i q all there);
    lengths = λ g h. h;
  }
  pairs_arrive qs (s ∷ ss) w (taken _ i x rest _ there more) u =
      let lt = get_elem?-some_lt qs i (s ∷ rest) there in
      let (j, e) = get_elem?-lt js i (omega (arith, u.many, lt)) in
      let m =
        advance k v input src j (ready i j e) w u.whole (s ∷ rest) s rest
          (u.stages i j (s ∷ rest) e there) refl in
      let after =
        pairs_arrive (set qs i rest) ss (k.run s.request w) more
          (taken-Under qs w (k.run s.request w) i j rest u lt e m) in
      record { written = after.written; lengths = λ g h. after.lengths g (m.lengths g h) }

  pub any_order :
      (ss : List (Sqe Data)) (w : k.World)
      → Interleave (map (asked input) js) ss
      → content input w ≡ src
      → Arrived w (run_all k ss w)
  any_order ss w order whole = pairs_arrive (map (asked input) js) ss w order (record {
    whole = whole;
    many = length-map (asked input) js;
    stages = λ i j q e there. waiting (some_inj (sym there ∙ get_elem?-map (asked input) js i j e));
  })
