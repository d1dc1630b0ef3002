-- ===== src/RingBuffer/Refine/Get.antt =====
-- `get` and `peek` hand out the oldest item, and throw on an empty ring.
use native.Mathlib.Nat.{mod-eq_of_lt, mod-lt, mod-add-mod}
use independent_study.Base.{
  suc, ◌+◌, ◌-◌, ◌%◌, ◌≡◌, ap, sym, ◌∙◌, List, [], ◌∷◌, get_elem?, ok, fail, exception, some, arith,
}
use independent_study.RingBuffer.{RingBuffer, get, peek}
use independent_study.RingBuffer.Valid.{IsValid}
use independent_study.RingBuffer.Refine.Holds.{Holds}

abbrev pub advanced : {A : Type 0} → RingBuffer A → RingBuffer A
advanced r = record r { tail = (r.tail + 1) % r.capacity; size = r.size - 1 }

module _ {A : Type 0} {r : RingBuffer A} (v : IsValid r) where
  pub get_empty : Holds r [] → get r ≡ fail exception
  unfolding get
  get_empty h = let e : r.size ≡ 0 = omega (arith, h.count) in ground (arith, e)

  pub peek_empty : Holds r [] → peek r ≡ fail exception
  unfolding peek
  peek_empty h = let e : r.size ≡ 0 = omega (arith, h.count) in ground (arith, e)

  module _ (x : A) (q : List A) (h : Holds r (x ∷ q)) where
    oldest : get_elem? r.buffer r.tail ≡ some x
    oldest =
        ap (get_elem? r.buffer)
          (sym (ap (λ t. t % r.capacity) (omega arith) ∙ mod-eq_of_lt v.tail_in))
        ∙ h.items 0 (omega (arith, h.count))

    pub get_item : get r ≡ ok (x, advanced r)
    unfolding get
    get_item = ground (arith, oldest, h.count)

    pub peek_item : peek r ≡ ok x
    unfolding peek
    peek_item = ground (arith, oldest, h.count)

    pub advanced-IsValid : IsValid (advanced r)
    advanced-IsValid = record {
      stored = v.stored;
      nonempty = v.nonempty;
      addressable = v.addressable;
      size_in = omega (arith, v.size_in);
      tail_in = mod-lt (r.tail + 1) v.nonempty;
      head_at =
          v.head_at
          ∙ ap (λ t. t % r.capacity) (omega (arith, h.count))
          ∙ sym (mod-add-mod (r.tail + 1) r.capacity (r.size - 1));
    }

    pub advanced-Holds : Holds (advanced r) q
    advanced-Holds = record {
      count = omega (arith, h.count);
      items = λ k lt.
          ap (get_elem? r.buffer)
            (mod-add-mod (r.tail + 1) r.capacity k ∙ ap (λ t. t % r.capacity) (omega arith))
          ∙ h.items (suc k) (omega arith);
    }
