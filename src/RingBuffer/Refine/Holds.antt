-- ===== src/RingBuffer/Refine/Holds.antt =====
-- Which queue a ring holds, and how that fixes what each test of the code sees.
use independent_study.Base.{ℕ, ◌+◌, ◌%◌, ◌<◌, ◌≡◌, List, get_elem?, length}
use independent_study.RingBuffer.{RingBuffer}

-- The `size` items from `tail` on, going round at the capacity, are the queue's, in its order.
pub record Holds {ℓ} {A : Type ℓ} (r : RingBuffer A) (q : List A) : Type ℓ where
  pub count : length q ≡ r.size
  pub items : (k : ℕ) → k < r.size → get_elem? r.buffer ((r.tail + k) % r.capacity) ≡ get_elem? q k
