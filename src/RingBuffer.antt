-- ===== src/RingBuffer.antt =====
-- source/IOuring/RingBuffer.hpp: a ring over a fixed array that overwrites its oldest item when
-- it is full. `size_t` sums wrap at 2 ^ 64. An access out of the array and `% 0` are undefined
-- behaviour, and `get` and `peek` on an empty ring throw.
pub mod Valid
pub mod Fifo
pub mod Refine
mod Tests
use independent_study.Base.{
  ℕ, ◌+◌, ◌-◌, ◌%◌, ◌^◌, Bool, ◌==◌, if◌then◌else◌, ltb, List, get_elem?, set, replicate, length,
  none, some, Outcome, ok, fail, ◌>>=◌, exception, undefined,
}

pub record RingBuffer {ℓ} (A : Type ℓ) : Type ℓ where
  pub buffer : List A
  pub capacity : ℕ
  pub size : ℕ
  pub head : ℕ
  pub tail : ℕ

abbrev pub size_mod : ℕ
size_mod = 2 ^ 64

-- `(i + 1) % capacity`
pub next_index : ℕ → ℕ → Outcome ℕ
next_index i capacity =
    if capacity == 0 then fail undefined else ok (((i + 1) % size_mod) % capacity)

module _ {ℓ} {A : Type ℓ} where
  -- `make_unique<T[]>` sets every item to the value `d` of `T()`.
  pub init : A → ℕ → RingBuffer A
  init d max_size = record {
    buffer = replicate max_size d;
    capacity = max_size;
    size = 0;
    head = 0;
    tail = 0;
  }

  pub is_full : RingBuffer A → Bool
  is_full r = r.size == r.capacity

  pub is_empty : RingBuffer A → Bool
  is_empty r = r.size == 0

  -- `buffer[i]`, read
  pub load : List A → ℕ → Outcome A
  load buffer i = elim (get_elem? buffer i) [ none ↦ fail undefined | some a ↦ ok a ]

  -- `buffer[i] = item`
  pub store : List A → ℕ → A → Outcome (List A)
  store buffer i item = if ltb i (length buffer) then ok (set buffer i item) else fail undefined

  -- the branch on `isFull`, before the head moves
  pub make_room : RingBuffer A → Outcome (RingBuffer A)
  unfolding is_full next_index
  make_room r =
      if is_full r
      then (next_index r.tail r.capacity >>= λ t. ok (record r { tail = t }))
      else ok (record r { size = (r.size + 1) % size_mod })

  pub put : RingBuffer A → A → Outcome (RingBuffer A)
  unfolding store make_room next_index
  put r item = do
    written ← store r.buffer r.head item
    room ← make_room (record r { buffer = written })
    h ← next_index room.head room.capacity
    ok (record room { head = h })

  pub get : RingBuffer A → Outcome (A × RingBuffer A)
  unfolding load next_index
  get r = if r.size == 0 then fail exception else do
    item ← load r.buffer r.tail
    t ← next_index r.tail r.capacity
    ok (item, record r { tail = t; size = r.size - 1 })

  pub peek : RingBuffer A → Outcome A
  unfolding load
  peek r = if r.size == 0 then fail exception else load r.buffer r.tail
