-- ===== src/ReadvTree/Rounds.antt =====
-- One round of the tree: in whatever order its iterations run, the number of nodes that hold the
-- source doubles.
use independent_study.Base.{
  Outcome, get_elem?-lt, get_elem?-some_lt, ℕ, ◌+◌, ◌*◌, ◌%◌, ◌<◌, ◌≡◌, ap, ◌∙◌, ltb, ltb→le,
  ltb→lt, if◌then◌else◌, Bool-cases, inl, inr, List, [], ◌∷◌, length, All, ok, add_size, word_mod,
  arith,
}
use independent_study.Base.Sums.{weigh}
use independent_study.Base.Orders.{All-map}
use independent_study.Liburing.{Fd}
use independent_study.FileIo.{FileIo, Reliable}
use independent_study.ReadvTree.{chunk_size, iteration, iterations}
use independent_study.ReadvTree.Nodes.{Group, Bounded, Holds, Keeps, copy_node_lem}

module _ (io : FileIo) (rel : Reliable io chunk_size) (root : Fd) (outs : List Fd) (source : List ℕ)
    (group : Group io rel root outs) where
  open io use {World}
  open rel use {content}

  -- One more copy in a sum that wraps.
  add_copy : (k n : ℕ) → add_size (k * n % word_mod) (n % word_mod) ≡ (k + 1) * n % word_mod
  add_copy k n = let expand : (k + 1) * n ≡ k * n + n = grind arith in omega (arith, expand)

  module _ (stride : ℕ) where
    -- Whether the i-th iteration has somebody to send to.
    abbrev pub sends : ℕ → ℕ
    sends i = if ltb (i + stride) (length outs + 1) then 1 else 0

    pub record Passed (done : ℕ) (Received : World → Type 0) (o : Outcome (ℕ × World)) (w : World)
        : Type 0 where
      pub world : World
      pub result : o ≡ ok (done * length source % word_mod, world)
      pub bounded : Bounded io rel root outs source world
      pub keeps : Keeps io rel root outs source w world
      pub received : Received world

    iteration_lem :
        (i k : ℕ) (w : World)
        → i < stride
        → Bounded io rel root outs source w
        → Holds io rel root outs source w i
        → Passed
            (k + sends i)
            (λ v. Holds io rel root outs source v (i + stride))
            (iteration io root outs stride i (k * length source % word_mod, w))
            w
    unfolding iteration
    iteration_lem i k w lt small held = elim (Bool-cases (ltb (i + stride) (length outs + 1))) [
      | inr e ↦ record {
        world = w;
        result =
            rw (e, iteration) (ap (λ n. ok (n * length source % word_mod, w)) (ground (arith, e)));
        bounded = small;
        keeps = λ j h. h;
        received = λ fd en. absurd (
            omega (
              arith,
              ltb→le (i + stride) (length outs + 1) e,
              get_elem?-some_lt (root ∷ outs) (i + stride) fd en,
            ));
      }
      | inl e ↦
          let below = ltb→lt (i + stride) (length outs + 1) e in
          let (a, ea) = get_elem?-lt (root ∷ outs) i (omega (arith, below)) in
          let (b, eb) = get_elem?-lt (root ∷ outs) (i + stride) (omega (arith, below)) in
          let c =
            copy_node_lem io rel root outs source group i (i + stride)
              (k * length source % word_mod) w a b ea eb (omega arith) small held in
          record {
            world = c.world;
            result =
                rw (e, iteration)
                  (c.result
                    ∙ ap (λ n. ok (n, c.world)) (add_copy k (length source))
                    ∙ ap (λ n. ok (n * length source % word_mod, c.world)) (ground (arith, e)));
            bounded = c.bounded;
            keeps = c.keeps;
            received = c.holds;
          }
    ]

    pub iterations_lem :
        (is : List ℕ) (k : ℕ) (w : World)
        → All (λ i. i < stride) is
        → Bounded io rel root outs source w
        → All (Holds io rel root outs source w) is
        → Passed
            (k + weigh sends is)
            (λ v. All (λ i. Holds io rel root outs source v (i + stride)) is)
            (iterations io root outs stride is (k * length source % word_mod, w))
            w
    unfolding iterations
    iterations_lem [] k w lts small held = record {
      world = w;
      result = ap (λ n. ok (n * length source % word_mod, w)) (omega arith);
      bounded = small;
      keeps = λ j h. h;
      received = tt;
    }
    iterations_lem (i ∷ is) k w lts small held =
        let a = iteration_lem i k w lts.0 small held.0 in
        let b = iterations_lem is (k + sends i) a.world lts.1 a.bounded (
          All-map (Holds io rel root outs source w) (Holds io rel root outs source a.world) is
            a.keeps held.1) in
        record {
          world = b.world;
          result =
              rw (a.result, iterations)
                (b.result ∙ ap (λ n. ok (n * length source % word_mod, b.world)) (omega arith));
          bounded = b.bounded;
          keeps = λ j h. b.keeps j (a.keeps j h);
          received = (b.keeps (i + stride) a.received, b.received);
        }
