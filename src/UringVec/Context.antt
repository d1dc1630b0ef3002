-- ===== src/UringVec/Context.antt =====
-- A request's context: its blocks cover the window exactly.
use independent_study.Base.{
  ℕ, zero, suc, ◌+◌, ◌-◌, ◌/◌, ◌<◌, ◌≡◌, refl, ap, sym, subst, ◌∙◌, append_assoc, min, List, [],
  ◌∷◌, ◌++◌, length, map, Option, none, some, ok, arith,
}
use independent_study.Liburing.{Sqe, Iovec, iov_bytes}
use independent_study.UringVec.{RequestContext, Data, block_sz, fill_blocks, new_context}

-- Every block but the last is full, and none is empty or larger than a block.
abbrev pub Blocks : List Iovec → ℕ → Type 0
Blocks [] remaining = remaining ≡ 0
Blocks (v ∷ vs) remaining =
    (v.iov_len ≡ min remaining block_sz) × (0 < v.iov_len) × Blocks vs (remaining - v.iov_len)

-- The pointers that the contexts of requests hold.
abbrev pub data_pointers : Data → List ℕ
data_pointers none = []
data_pointers (some ctx) = ctx.raw_pointers

abbrev pub pointers : List (Sqe Data) → List ℕ
pointers [] = []
pointers (s ∷ ss) = data_pointers s.user_data ++ pointers ss

pub pointers-append : (xs ys : List (Sqe Data)) → pointers (xs ++ ys) ≡ pointers xs ++ pointers ys
pointers-append [] ys = refl
pointers-append (x ∷ xs) ys =
    ap (λ ps. data_pointers x.user_data ++ ps) (pointers-append xs ys)
    ∙ sym (append_assoc (data_pointers x.user_data) (pointers xs) (pointers ys))

module _ {Heap : Type 0} (posix_memalign : ℕ → ℕ → Heap → Option (ℕ × Heap)) where
  -- Blocks at these addresses are allocated one after the other, from one heap to another.
  abbrev pub Allocates : List ℕ → Heap → Heap → Type 0
  Allocates [] h h' = h ≡ h'
  Allocates (p ∷ ps) h h' =
      (h1 : Heap) × (posix_memalign 4096 block_sz h ≡ some (p, h1)) × Allocates ps h1 h'

  pub Allocates-append :
      (ps qs : List ℕ) (h h' h'' : Heap)
      → Allocates ps h h'
      → Allocates qs h' h''
      → Allocates (ps ++ qs) h h''
  Allocates-append [] qs h h' h'' e rest = subst (λ g. Allocates qs g h'') (sym e) rest
  Allocates-append (p ∷ ps) qs h h' h'' (h1, e, more) rest =
      (h1, e, Allocates-append ps qs h1 h' h'' more rest)

module _ {Heap : Type 0} (posix_memalign : ℕ → ℕ → Heap → Option (ℕ × Heap))
    (never_fails : (h : Heap)
      → (p : ℕ) × (h' : Heap) × (posix_memalign 4096 block_sz h ≡ some (p, h'))) where
  record Filled (blocks remaining : ℕ) (h : Heap) : Type 0 where
    iovecs : List Iovec
    heap : Heap
    result : fill_blocks posix_memalign blocks remaining h ≡ ok (iovecs, heap)
    covers : Blocks iovecs remaining
    sum : iov_bytes iovecs ≡ remaining
    count : length iovecs ≡ blocks
    steps : Allocates posix_memalign (map (λ (v : Iovec). v.iov_base) iovecs) h heap

  fill_blocks_lem :
      (blocks remaining : ℕ) (h : Heap)
      → blocks ≡ (remaining + block_sz - 1) / block_sz
      → Filled blocks remaining h
  unfolding fill_blocks
  fill_blocks_lem zero remaining h e = record {
    iovecs = [];
    heap = h;
    result = refl;
    covers = omega arith;
    sum = omega arith;
    count = refl;
    steps = refl;
  }
  fill_blocks_lem (suc blocks) remaining h e =
      let (p, h', alloc) = never_fails h in
      let f = fill_blocks_lem blocks (remaining - min remaining block_sz) h' (omega arith) in
      record {
        iovecs = record { iov_base = p; iov_len = min remaining block_sz } ∷ f.iovecs;
        heap = f.heap;
        result = rw (alloc, fill_blocks) (rw f.result);
        covers = (refl, omega arith, f.covers);
        sum = omega (arith, f.sum);
        count = omega (arith, f.count);
        steps = (h', alloc, f.steps);
      }

  -- What the constructor gives for a window of `bytes` bytes.
  pub record Built (bytes : ℕ) (h : Heap) : Type 0 where
    pub context : RequestContext
    pub heap : Heap
    pub result :
        new_context posix_memalign ((bytes + block_sz - 1) / block_sz) bytes h ≡ ok (context, heap)
    pub covers : Blocks context.iovecs bytes
    pub sum : iov_bytes context.iovecs ≡ bytes
    pub count : length context.iovecs ≡ (bytes + block_sz - 1) / block_sz
    pub owned : context.raw_pointers ≡ map (λ (v : Iovec). v.iov_base) context.iovecs
    pub recorded : context.bytes ≡ bytes
    pub steps : Allocates posix_memalign context.raw_pointers h heap

  -- Where no allocation fails, the constructor gives a context of as many blocks as were asked
  -- for, whose lengths are full blocks and a rest, none empty, and add up to the window; the
  -- pointers that the destructor frees are those of the blocks.
  pub new_context_covers : (bytes : ℕ) (h : Heap) → Built bytes h
  unfolding new_context
  new_context_covers bytes h =
      let f = fill_blocks_lem ((bytes + block_sz - 1) / block_sz) bytes h refl in
      record {
        context = record {
          iovecs = f.iovecs;
          raw_pointers = map (λ (v : Iovec). v.iov_base) f.iovecs;
          bytes = bytes;
        };
        heap = f.heap;
        result = rw (f.result, new_context);
        covers = f.covers;
        sum = f.sum;
        count = f.count;
        owned = refl;
        recorded = refl;
        steps = f.steps;
      }
