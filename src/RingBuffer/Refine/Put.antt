-- ===== src/RingBuffer/Refine/Put.antt =====
-- `put` appends the item, and forgets the oldest one when the ring is full.
use native.Mathlib.Nat.{mod-lt, mod-add-mod}
use native.Mathlib.Decide.{dec_lt}
use independent_study.Base.{
  subst, sym, ℕ, suc, ◌+◌, ◌%◌, ◌<◌, ◌≡◌, ◌≢◌, refl, ap, ◌∙◌, List, [], ◌∷◌, ◌++◌, get_elem?, set,
  length-set, length-append, get_elem?-set_self, get_elem?-set_ne, get_elem?-append_left,
  get_elem?-append_last, ok, some, ◌⊎◌, arith, inl, inr,
}
use independent_study.RingBuffer.{RingBuffer, put}
use independent_study.RingBuffer.Valid.{IsValid}
use independent_study.RingBuffer.Fifo.{enqueue, enqueue_room, enqueue_full}
use independent_study.RingBuffer.Refine.Index.{wrap-injective}
use independent_study.RingBuffer.Refine.Holds.{Holds}

-- A ring that is not full takes the item behind its newest one.
abbrev appended {ℓ} : {A : Type ℓ} → RingBuffer A → A → RingBuffer A
appended r x = record r {
  buffer = set r.buffer r.head x;
  size = r.size + 1;
  head = (r.head + 1) % r.capacity;
}

-- A full one takes it in the place of its oldest.
abbrev replaced {ℓ} : {A : Type ℓ} → RingBuffer A → A → RingBuffer A
replaced r x = record r {
  buffer = set r.buffer r.head x;
  head = (r.head + 1) % r.capacity;
  tail = (r.tail + 1) % r.capacity;
}

module _ {A : Type 0} {r : RingBuffer A} (x : A) (v : IsValid r) where
  pub head_in : r.head < r.capacity
  head_in = omega (arith, v.head_at, mod-lt (r.tail + r.size) v.nonempty)

  put-appended : r.size < r.capacity → put r x ≡ ok (appended r x)
  unfolding put
  put-appended h = ground (arith, head_in)

  put-replaced : r.size ≡ r.capacity → put r x ≡ ok (replaced r x)
  unfolding put
  put-replaced h = ground (arith, head_in)

  appended-IsValid : r.size < r.capacity → IsValid (appended r x)
  appended-IsValid h = record {
    stored = omega (arith, length-set r.buffer r.head x, v.stored);
    nonempty = v.nonempty;
    addressable = v.addressable;
    size_in = omega arith;
    tail_in = v.tail_in;
    head_at =
        ap (λ t. (t + 1) % r.capacity) v.head_at
        ∙ mod-add-mod (r.tail + r.size) r.capacity 1
        ∙ ap (λ t. t % r.capacity) (omega arith);
  }

  replaced-IsValid : r.size ≡ r.capacity → IsValid (replaced r x)
  replaced-IsValid h = record {
    stored = omega (arith, length-set r.buffer r.head x, v.stored);
    nonempty = v.nonempty;
    addressable = v.addressable;
    size_in = v.size_in;
    tail_in = mod-lt (r.tail + 1) v.nonempty;
    head_at =
        ap (λ t. (t + 1) % r.capacity) v.head_at
        ∙ mod-add-mod (r.tail + r.size) r.capacity 1
        ∙ ap (λ t. t % r.capacity) (omega arith)
        ∙ sym (mod-add-mod (r.tail + 1) r.capacity r.size);
  }

  -- An item that stays is not where `head` points.
  kept :
      (k : ℕ)
      → k < r.size
      → (k ≢ 0) ⊎ (r.size < r.capacity)
      → get_elem? (set r.buffer r.head x) ((r.tail + k) % r.capacity)
        ≡ get_elem? r.buffer ((r.tail + k) % r.capacity)
  kept k h c = get_elem?-set_ne r.buffer r.head _ x λ e.
      ground (arith, v.head_at, v.size_in, c, wrap-injective r.tail k r.size r.capacity v.tail_in)

  newest :
      (k : ℕ)
      → (r.tail + k) % r.capacity ≡ r.head
      → get_elem? (set r.buffer r.head x) ((r.tail + k) % r.capacity) ≡ some x
  newest k e = rw e (get_elem?-set_self r.buffer r.head x (omega (arith, head_in, v.stored)))

  appended-Holds :
      (q : List A) → Holds r q → r.size < r.capacity → Holds (appended r x) (q ++ x ∷ [])
  appended-Holds q h room = record {
    count = omega (arith, length-append q (x ∷ []), h.count);
    items = λ k lt. elim (dec_lt k r.size) [
      | yes old ↦
          kept k old (inr room)
          ∙ h.items k old
          ∙ sym (get_elem?-append_left q (x ∷ []) k (omega (arith, h.count)))
      | no new ↦
          newest k (ap (λ t. (r.tail + t) % r.capacity) (omega arith) ∙ sym v.head_at)
          ∙ sym (get_elem?-append_last q x k (omega (arith, h.count)))
    ];
  }

  later : (k : ℕ) → ((r.tail + 1) % r.capacity + k) % r.capacity ≡ (r.tail + suc k) % r.capacity
  later k = mod-add-mod (r.tail + 1) r.capacity k ∙ ap (λ t. t % r.capacity) (omega arith)

  replaced-Holds :
      (y : A) (q : List A)
      → Holds r (y ∷ q)
      → r.size ≡ r.capacity
      → Holds (replaced r x) (q ++ x ∷ [])
  replaced-Holds y q h full = record {
    count = omega (arith, length-append q (x ∷ []), h.count);
    items = λ k lt. elim (dec_lt (k + 1) r.size) [
      | yes old ↦
          ap (get_elem? (set r.buffer r.head x)) (later k)
          ∙ kept (suc k) (omega arith) (inl (omega arith))
          ∙ h.items (suc k) (omega arith)
          ∙ sym (get_elem?-append_left q (x ∷ []) k (omega (arith, h.count)))
      | no new ↦
          ap (get_elem? (set r.buffer r.head x)) (later k)
          ∙ newest (suc k) (ap (λ t. (r.tail + t) % r.capacity) (omega arith) ∙ sym v.head_at)
          ∙ sym (get_elem?-append_last q x k (omega (arith, h.count)))
    ];
  }

  replaced-enqueue :
      (q : List A) → Holds r q → r.size ≡ r.capacity → Holds (replaced r x) (enqueue r.capacity q x)
  replaced-enqueue [] h full = absurd (omega (arith, h.count, v.nonempty))
  replaced-enqueue (y ∷ q) h full =
      subst (Holds (replaced r x))
        (sym (enqueue_full r.capacity (y ∷ q) x (omega (arith, h.count))))
        (replaced-Holds y q h full)

-- `put` never fails on a valid ring, keeps it valid, and does to its queue what `enqueue` does:
-- the item goes to the end, and the oldest item is forgotten exactly when the ring was full.
pub put_refines :
    {A : Type 0} {r : RingBuffer A} (x : A) (q : List A)
    → IsValid r
    → Holds r q
    → (r' : RingBuffer A) × (put r x ≡ ok r')
      × IsValid r'
      × Holds r' (enqueue r.capacity q x)
      × (r'.capacity ≡ r.capacity)
put_refines {r = r} x q v h = elim (dec_lt r.size r.capacity) [
  | yes room ↦ (
    appended r x,
    put-appended x v room,
    appended-IsValid x v room,
    subst (Holds (appended r x)) (sym (enqueue_room r.capacity q x (omega (arith, h.count))))
        (appended-Holds x v q h room),
    refl,
  )
  | no full ↦ (
    replaced r x,
    put-replaced x v (omega (arith, v.size_in)),
    replaced-IsValid x v (omega (arith, v.size_in)),
    replaced-enqueue x v q h (omega (arith, v.size_in)),
    refl,
  )
]
