-- ===== src/Splice/Delivery/Any.antt =====
-- All outputs together: the requests of one output come in the order in which they were asked for,
-- those of different outputs in any order.
use independent_study.Base.{
  ℕ, ◌≤◌, ◌<◌, ◌≡◌, ◌≢◌, refl, ap, sym, subst, ◌∙◌, inl, inr, Bool-cases, ◌==◌, ==_iff, ==_ne, List,
  [], ◌∷◌, length, map, set, get_elem?, get_elem?-lt, get_elem?-some_lt, get_elem?-set_self,
  get_elem?-set_ne, length-set, length-map, get_elem?-map, some_inj, none, some, arith,
}
use independent_study.Base.Orders.{All-get_elem?}
use independent_study.Base.Interleave.{Interleave, finished, taken}
use independent_study.Liburing.{Fd, Sqe}
use independent_study.Kernel.{Kernel, Transfers, run_all}
use independent_study.Splice.{splice_chunk_size, Output}
use independent_study.Splice.Plan.{chunk_count, plan}
use independent_study.Splice.Delivery.{Stage, between, Stage-same, Stage-last, Ends, Moved, advance}

-- What is asked for, one queue for each output.
abbrev pub queues : Fd → List Output → ℕ → List (List (Sqe ℕ))
queues source os sz = map (λ (o : Output). plan source (o ∷ []) sz) os

module _ (k : Kernel) (t : Transfers k) (source : Fd) (os : List Output) where
  open t use {pipe_of, capacity, content, held}

  -- Each output has a pipe and a file of its own, which is not the source, and a pipe holds a chunk.
  pub record Wired : Type 0 where
    pub from_file : pipe_of source ≡ none
    pub room : splice_chunk_size ≤ capacity
    pub number : ℕ → ℕ
    pub ends : (i : ℕ) (o : Output) → get_elem? os i ≡ some o → Ends k t o (number i)
    pub apart_source : (i : ℕ) (o : Output) → get_elem? os i ≡ some o → source ≢ o.file
    pub apart :
        (i j : ℕ) (o o' : Output)
        → get_elem? os i ≡ some o
        → get_elem? os j ≡ some o'
        → i ≢ j
        → (o.file ≢ o'.file) × (number i ≢ number j)

  module _ (wired : Wired) (src : List ℕ) where
    open wired use {number, ends, apart_source, apart}

    -- The queues of the outputs, with the stage that each has come to.
    record Under (qs : List (List (Sqe ℕ))) (w : k.World) : Type 0 where
      whole : content source w ≡ src
      many : length qs ≡ length os
      stages :
          (i : ℕ) (o : Output) (q : List (Sqe ℕ))
          → get_elem? os i ≡ some o
          → get_elem? qs i ≡ some q
          → Stage k t source src o (number i) w q

    other_stage :
        (qs : List (List (Sqe ℕ))) (w w' : k.World) (i j : ℕ) (o o' : Output)
        (rest q : List (Sqe ℕ))
        → Under qs w
        → get_elem? os i ≡ some o
        → get_elem? os j ≡ some o'
        → i ≢ j
        → Moved k t source src o (number i) w w' rest
        → get_elem? (set qs i rest) j ≡ some q
        → Stage k t source src o' (number j) w' q
    other_stage qs w w' i j o o' rest q u e e' ne m there =
        let (files, pipes) = apart i j o o' e e' ne in
        Stage-same k t source src o' (number j) w w' q
          (m.other_pipes (number j) (λ h. pipes (sym h)))
          (m.other_files o'.file (λ h. files (sym h)))
          (u.stages j o' q e' (sym (get_elem?-set_ne qs i j rest ne) ∙ there))

    taken-Under :
        (qs : List (List (Sqe ℕ))) (w w' : k.World) (i : ℕ) (o : Output) (rest : List (Sqe ℕ))
        → Under qs w
        → i < length qs
        → get_elem? os i ≡ some o
        → Moved k t source src o (number i) w w' rest
        → Under (set qs i rest) w'
    taken-Under qs w w' i o rest u lt e m = record {
      whole = m.other_files source (apart_source i o e) ∙ u.whole;
      many = length-set qs i rest ∙ u.many;
      stages = λ j o' q e' there. elim (Bool-cases (i == j)) [
        | inr ne ↦ other_stage qs w w' i j o o' rest q u e e' (==_ne i j ne) m there
        | inl same ↦
            let eq = (==_iff i j).0 same in
            let here : o ≡ o' = some_inj (sym e ∙ ap (get_elem? os) eq ∙ e') in
            let queue : rest ≡ q =
              some_inj (
                sym (get_elem?-set_self qs i rest lt)
                ∙ ap (get_elem? (set qs i rest)) eq
                ∙ there) in
            subst (λ n. Stage k t source src o' (number n) w' q) eq
              (subst (λ x. Stage k t source src x (number i) w' q) here
                (subst (Stage k t source src o (number i) w') queue m.stage))
      ];
    }

    queues_deliver :
        (qs : List (List (Sqe ℕ))) (ss : List (Sqe ℕ)) (w : k.World)
        → Interleave qs ss
        → Under qs w
        → (i : ℕ) (o : Output) → get_elem? os i ≡ some o
        → content o.file (run_all k ss w) ≡ src
    unfolding run_all
    queues_deliver qs [] w (finished _ all) u i o e =
        let (q, there) = get_elem?-lt qs i (omega (arith, u.many, get_elem?-some_lt os i o e)) in
        Stage-last k t source src o (number i) w q (u.stages i o q e there)
          (All-get_elem? (λ x. x ≡ []) qs i q all there)
    queues_deliver qs (s ∷ ss) w (taken _ j x rest _ there more) u i o e =
        let lt = get_elem?-some_lt qs j (s ∷ rest) there in
        let (o', e') = get_elem?-lt os j (omega (arith, u.many, lt)) in
        let m =
          advance k t source src wired.from_file wired.room o' (number j) (ends j o' e') w
            (s ∷ rest) s rest (u.stages j o' (s ∷ rest) e' there) refl u.whole in
        queues_deliver (set qs j rest) ss (k.run s.request w) more
          (taken-Under qs w (k.run s.request w) j o' rest u lt e' m) i o e

    -- At the start the outputs and the pipes are empty.
    pub record Fresh (w : k.World) : Type 0 where
      pub source_whole : content source w ≡ src
      pub no_bytes : (i : ℕ) (o : Output) → get_elem? os i ≡ some o → content o.file w ≡ []
      pub no_held : (i : ℕ) (o : Output) → get_elem? os i ≡ some o → held (number i) w ≡ []

    Fresh-Under : (w : k.World) → Fresh w → Under (queues source os (length src)) w
    Fresh-Under w f = record {
      whole = f.source_whole;
      many = length-map (λ (o : Output). plan source (o ∷ []) (length src)) os;
      stages = λ i o q e there.
          between 0 (chunk_count (length src))
            (sym (
              some_inj (
                sym (get_elem?-map (λ (o : Output). plan source (o ∷ []) (length src)) os i o e)
                ∙ there)))
            (omega arith) (f.no_held i o e) (f.no_bytes i o e);
    }

    pub any_order :
        (ss : List (Sqe ℕ)) (w : k.World)
        → Interleave (queues source os (length src)) ss
        → Fresh w
        → (i : ℕ) (o : Output) → get_elem? os i ≡ some o
        → content o.file (run_all k ss w) ≡ src
    any_order ss w order f =
        queues_deliver (queues source os (length src)) ss w order (Fresh-Under w f)
