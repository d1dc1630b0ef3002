-- ===== src/RingBuffer/Fifo.antt =====
-- What a ring promises: a queue, oldest item first, that forgets its oldest item when a new one
-- does not fit. The calls of a client, and what it sees of each.
use independent_study.Base.{
  ℕ, ◌≡◌, ◌<◌, arith, Bool, ◌==◌, if◌then◌else◌, List, [], ◌∷◌, ◌++◌, length, drop, Outcome, ok,
  fail, exception,
}

pub data Op {ℓ} (A : Type ℓ) : Type ℓ where
  putting : A → Op A
  getting peeking testing_full testing_empty : Op A

pub data Reply {ℓ} (A : Type ℓ) : Type ℓ where
  done : Reply A
  item : A → Reply A
  answer : Bool → Reply A
  thrown : Reply A

module _ {ℓ} {A : Type ℓ} where
  unfoldable pub enqueue : ℕ → List A → A → List A
  enqueue cap q x = (if length q == cap then drop 1 q else q) ++ x ∷ []

  unfoldable pub dequeue : List A → Outcome (A × List A)
  dequeue [] = fail exception
  dequeue (x ∷ q) = ok (x, q)

  unfoldable pub front : List A → Outcome A
  front [] = fail exception
  front (x ∷ q) = ok x

  -- One call on a queue of at most `cap` items.
  unfoldable pub call : ℕ → List A → Op A → Reply A × List A
  unfolding enqueue
  call cap q (putting x) = (done, enqueue cap q x)
  call cap [] getting = (thrown, [])
  call cap (x ∷ q) getting = (item x, q)
  call cap [] peeking = (thrown, [])
  call cap (x ∷ q) peeking = (item x, x ∷ q)
  call cap q testing_full = (answer (length q == cap), q)
  call cap q testing_empty = (answer (length q == 0), q)

  unfoldable pub run : ℕ → List A → List (Op A) → List (Reply A)
  unfolding call
  run cap q [] = []
  run cap q (o ∷ os) = let (a, q') = call cap q o in a ∷ run cap q' os

module _ {A : Type 0} where
  pub enqueue_room : (cap : ℕ) (q : List A) (x : A) → length q < cap → enqueue cap q x ≡ q ++ x ∷ []
  unfolding enqueue
  enqueue_room cap q x h = ground arith

  pub enqueue_full :
      (cap : ℕ) (q : List A) (x : A) → length q ≡ cap → enqueue cap q x ≡ drop 1 q ++ x ∷ []
  unfolding enqueue
  enqueue_full cap q x h = ground arith
