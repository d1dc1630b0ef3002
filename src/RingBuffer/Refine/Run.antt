-- ===== src/RingBuffer/Refine/Run.antt =====
-- Any sequence of calls on a valid ring is answered as the queue that it holds would answer.
use native.Mathlib.Nat.{mod-eq_of_lt}
use independent_study.Base.{
  ℕ, ◌<◌, ◌≡◌, refl, ap, sym, ◌∙◌, List, [], ◌∷◌, Outcome, ok, fail, exception, arith, ◌==◌, ◌>>=◌,
  length-replicate,
}
use independent_study.RingBuffer.{RingBuffer, init, put, get, peek, is_full, is_empty, size_mod}
use independent_study.RingBuffer.Valid.{IsValid}
use independent_study.RingBuffer.Refine.Holds.{Holds}
use independent_study.RingBuffer.Refine.Put.{put_refines}
use independent_study.RingBuffer.Refine.Get.{
  get_empty, get_item, peek_empty, peek_item, advanced, advanced-IsValid, advanced-Holds,
}
use independent_study.RingBuffer.Fifo.{
  Op, putting, getting, peeking, testing_full, testing_empty, Reply, done, item, answer, thrown,
  enqueue,
}
use independent_study.RingBuffer.Fifo

module _ {A : Type 0} where
  -- One call: its reply and the ring behind it. Undefined behaviour ends the run.
  unfoldable pub call : RingBuffer A → Op A → Outcome (Reply A × RingBuffer A)
  unfolding is_full is_empty
  call r (putting x) = put r x >>= λ r'. ok (done, r')
  call r getting = elim (get r) [
    | ok p ↦ ok (item p.0, p.1)
    | fail e ↦ elim e [ exception ↦ ok (thrown, r) | other ↦ fail other ]
  ]
  call r peeking = elim (peek r) [
    | ok x ↦ ok (item x, r)
    | fail e ↦ elim e [ exception ↦ ok (thrown, r) | other ↦ fail other ]
  ]
  call r testing_full = ok (answer (is_full r), r)
  call r testing_empty = ok (answer (is_empty r), r)

  unfoldable pub run : RingBuffer A → List (Op A) → Outcome (List (Reply A))
  unfolding call
  run r [] = ok []
  run r (o ∷ os) = call r o >>= λ (a, r'). run r' os >>= λ rest. ok (a ∷ rest)

  -- What one call leaves behind, and what it answers.
  record Follows (cap : ℕ) (q : List A) (o : Op A) (out : Outcome (Reply A × RingBuffer A))
      : Type 0 where
    ring : RingBuffer A
    answered : out ≡ ok ((Fifo.call cap q o).0, ring)
    valid : IsValid ring
    holds : Holds ring (Fifo.call cap q o).1
    same : ring.capacity ≡ cap

  call_refines :
      (r : RingBuffer A) (q : List A) (o : Op A)
      → IsValid r
      → Holds r q
      → Follows r.capacity q o (call r o)
  unfolding call Fifo.call
  call_refines r q (putting x) v h =
      let (r', e, v', h', c) = put_refines x q v h in
      record { ring = r'; answered = rw (e, call); valid = v'; holds = h'; same = c }
  call_refines r [] getting v h = record {
    ring = r;
    answered = rw (get_empty v h, call);
    valid = v;
    holds = h;
    same = refl;
  }
  call_refines r (x ∷ q) getting v h = record {
    ring = advanced r;
    answered = rw (get_item v x q h, call);
    valid = advanced-IsValid v x q h;
    holds = advanced-Holds v x q h;
    same = refl;
  }
  call_refines r [] peeking v h = record {
    ring = r;
    answered = rw (peek_empty v h, call);
    valid = v;
    holds = h;
    same = refl;
  }
  call_refines r (x ∷ q) peeking v h = record {
    ring = r;
    answered = rw (peek_item v x q h, call);
    valid = v;
    holds = h;
    same = refl;
  }
  call_refines r q testing_full v h = record {
    ring = r;
    answered = ap (λ n. ok (answer (n == r.capacity), r)) (sym h.count);
    valid = v;
    holds = h;
    same = refl;
  }
  call_refines r q testing_empty v h = record {
    ring = r;
    answered = ap (λ n. ok (answer (n == 0), r)) (sym h.count);
    valid = v;
    holds = h;
    same = refl;
  }

  run-Holds :
      (r : RingBuffer A) (q : List A) (os : List (Op A))
      → IsValid r
      → Holds r q
      → run r os ≡ ok (Fifo.run r.capacity q os)
  unfolding run Fifo.run
  run-Holds r q [] v h = refl
  run-Holds r q (o ∷ os) v h =
      let f = call_refines r q o v h in
      rw (f.answered, run-Holds f.ring (Fifo.call r.capacity q o).1 os f.valid f.holds, f.same)

  init-IsValid : (d : A) (n : ℕ) → 0 < n → n < size_mod → IsValid (init d n)
  unfolding init
  init-IsValid d n pos small = record {
    stored = length-replicate n d;
    nonempty = pos;
    addressable = small;
    size_in = omega arith;
    tail_in = pos;
    head_at = sym (mod-eq_of_lt pos);
  }

  capacity-init : (d : A) (n : ℕ) → (init d n).capacity ≡ n
  unfolding init
  capacity-init d n = refl

  init-Holds : (d : A) (n : ℕ) → Holds (init d n) []
  unfolding init
  init-Holds d n = record { count = refl; items = λ k lt. absurd (omega arith) }

-- A new ring of n items, n from 1 to 2 ^ 64 - 1, answers every sequence of calls as a queue does
-- that holds the n newest items: it runs into no undefined behaviour, and throws exactly where
-- that queue is empty.
pub run_refines :
    {A : Type 0} (d : A) (n : ℕ) (os : List (Op A))
    → 0 < n
    → n < size_mod
    → run (init d n) os ≡ ok (Fifo.run n [] os)
run_refines d n os pos small =
    run-Holds (init d n) [] os (init-IsValid d n pos small) (init-Holds d n)
    ∙ ap (λ c. ok (Fifo.run c [] os)) (capacity-init d n)
