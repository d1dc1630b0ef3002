-- ===== src/RingBuffer/Valid.antt =====
-- The representation of a ring: the array's size, the indices' ranges, and what the ring holds.
use independent_study.Base.{◌+◌, ◌%◌, ◌≤◌, ◌<◌, ◌≡◌, length}
use independent_study.RingBuffer.{RingBuffer, size_mod}

pub record IsValid {ℓ} {A : Type ℓ} (r : RingBuffer A) : Type 0 where
  pub stored : length r.buffer ≡ r.capacity
  pub nonempty : 0 < r.capacity
  pub addressable : r.capacity < size_mod
  pub size_in : r.size ≤ r.capacity
  pub tail_in : r.tail < r.capacity
  pub head_at : r.head ≡ (r.tail + r.size) % r.capacity
