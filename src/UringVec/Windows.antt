-- ===== src/UringVec/Windows.antt =====
-- What `submit_readV_writeV` asks of the ring: one whole pair for each window of the file.
use native.Mathlib.Decide.{dec_lt}
use independent_study.Base.{
  ℕ, zero, suc, ◌+◌, ◌-◌, ◌%◌, ◌≤◌, ◌<◌, ◌≡◌, refl, ap, sym, subst, ◌∙◌, min, List, [], ◌∷◌, ◌++◌,
  map, append-nil, append_assoc, Option, none, some, Outcome, ok, true, false, lt→ltb, le→ltb, ◌==◌,
  if◌then◌else◌, pos, word_mod, arith,
}
use independent_study.Liburing.{Fd, Sqe, Iovec, readv, writev, Liburing}
use independent_study.Liburing.Queue.{sent, sent-submit}
use independent_study.UringVec.{
  RequestContext, Data, block_sz, window_size, read_sqe, write_sqe, window, windows,
  submit_readv_writev,
}
use independent_study.UringVec.Context.{
  Blocks, Allocates, Allocates-append, pointers, pointers-append, new_context_covers,
}
use independent_study.UringVec.Pairs.{IsPair, IsWhole, submit-IsWhole, queue_pair_whole}

module _ (input output : Fd) (start sz : ℕ) where
  -- One window from byte `from` on: the blocks of the context cover it, and both requests of the
  -- pair are for its place in the file. The read is linked to the write, which is the last of the
  -- chain and carries the context.
  pub record Window (from : ℕ) (rd wr : Sqe Data) : Type 0 where
    pub context : RequestContext
    pub inside : from < sz
    pub reads : rd ≡ record {
      request = readv input context.iovecs (start + from);
      link = true;
      user_data = none;
    }
    pub writes : wr ≡ record {
      request = writev output context.iovecs (start + from);
      link = false;
      user_data = some context;
    }
    pub covers : Blocks context.iovecs (min window_size (sz - from))
    pub recorded : context.bytes ≡ min window_size (sz - from)
    pub owned : context.raw_pointers ≡ map (λ (v : Iovec). v.iov_base) context.iovecs

  -- The windows follow one another from byte `from` to the end of the file.
  abbrev pub Tiles : ℕ → List (Sqe Data) → Type 0
  Tiles from [] = from ≡ sz
  Tiles from (rd ∷ []) = ⊥
  Tiles from (rd ∷ wr ∷ rest) = Window from rd wr × Tiles (from + min window_size (sz - from)) rest

module _ {Heap : Type 0} (posix_memalign : ℕ → ℕ → Heap → Option (ℕ × Heap))
    (never_fails : (h : Heap)
      → (p : ℕ) × (h' : Heap) × (posix_memalign 4096 block_sz h ≡ some (p, h')))
    (u : Liburing Data) (input output : Fd) (start sz : ℕ) where
  open u use {Ring, queued, submit, submit_queued}

  record Queued1 (r : Ring) (h : Heap) (from : ℕ) : Type 0 where
    ring : Ring
    heap : Heap
    rd : Sqe Data
    wr : Sqe Data
    result :
        window posix_memalign u input output start sz r h from
        ≡ ok (ring, heap, from + min window_size (sz - from))
    whole : IsWhole u ring
    more : sent u ring ≡ sent u r ++ rd ∷ wr ∷ []
    place : Window input output start sz from rd wr
    steps : Allocates posix_memalign (pointers (rd ∷ wr ∷ [])) h heap

  window_lem : (r : Ring) (h : Heap) (from : ℕ) → IsWhole u r → from < sz → Queued1 r h from
  unfolding window
  window_lem r h from w lt =
      let b = new_context_covers posix_memalign never_fails (min window_size (sz - from)) h in
      let rd = read_sqe input b.context (start + from) in
      let wr = write_sqe output b.context (start + from) in
      let pair : IsPair rd wr = record {
        input = input;
        output = output;
        context = b.context;
        offset = start + from;
        reads = refl;
        writes = refl;
        linked = refl;
        last = refl;
      } in
      let q = queue_pair_whole u r rd wr w pair in
      record {
        ring = q.ring;
        heap = b.heap;
        rd = rd;
        wr = wr;
        result = rw (b.result, window) (rw q.read_result (rw q.write_result));
        whole = q.whole;
        more = q.more;
        place = record {
          context = b.context;
          inside = lt;
          reads = refl;
          writes = refl;
          covers = b.covers;
          recorded = b.recorded;
          owned = b.owned;
        };
        steps =
            subst (λ ps. Allocates posix_memalign ps h b.heap)
              (sym (append-nil b.context.raw_pointers)) b.steps;
      }

  pub record Submitted (r : Ring) (h : Heap) (out : Outcome (Ring × Heap × ℕ)) (from : ℕ)
      : Type 0 where
    pub ring : Ring
    pub heap : Heap
    pub plan : List (Sqe Data)
    pub result : out ≡ ok (ring, heap, sz)
    pub whole : IsWhole u ring
    pub drained : queued ring ≡ []
    pub more : sent u ring ≡ sent u r ++ plan
    pub tiles : Tiles input output start sz from plan
    pub steps : Allocates posix_memalign (pointers plan) h heap

  windows_lem :
      (fuel : ℕ) (r : Ring) (h : Heap) (from : ℕ)
      → IsWhole u r
      → from ≤ sz
      → sz - from < fuel
      → Submitted r h (windows posix_memalign u fuel input output start sz r h from) from
  unfolding windows
  windows_lem zero r h from w le f = absurd (omega arith)
  windows_lem (suc fuel) r h from w le f = elim (dec_lt from sz) [
    | no over ↦
        let at_end : from ≡ sz = omega arith in
        record {
          ring = submit r;
          heap = h;
          plan = [];
          result =
              rw (windows, le→ltb from sz (omega arith))
                (ap (λ (n : ℕ). ok (submit r, h, n)) at_end);
          whole = submit-IsWhole u r w;
          drained = submit_queued r;
          more = sent-submit u r ∙ sym (append-nil (sent u r));
          tiles = at_end;
          steps = refl;
        }
    | yes lt ↦
        let q = window_lem r h from w lt in
        let rest =
          windows_lem fuel q.ring q.heap (from + min window_size (sz - from)) q.whole (omega arith)
            (omega arith) in
        record {
          ring = rest.ring;
          heap = rest.heap;
          plan = q.rd ∷ q.wr ∷ rest.plan;
          result = rw (windows, lt→ltb from sz lt) (rw q.result rest.result);
          whole = rest.whole;
          drained = rest.drained;
          more =
              rest.more
              ∙ ap (λ ss. ss ++ rest.plan) q.more
              ∙ append_assoc (sent u r) (q.rd ∷ q.wr ∷ []) rest.plan;
          tiles = (q.place, rest.tiles);
          steps =
              subst (λ ps. Allocates posix_memalign ps h rest.heap)
                (sym (pointers-append (q.rd ∷ q.wr ∷ []) rest.plan))
                (Allocates-append posix_memalign (pointers (q.rd ∷ q.wr ∷ [])) (pointers rest.plan)
                  h q.heap rest.heap q.steps rest.steps);
        }
  ]

  -- Let no allocation fail, and let the ring of 1024 entries hold whole pairs so far. For a file
  -- of 1 to 2 ^ 64 - 1 bytes, `submit_readV_writeV` returns the file's size, has asked behind what
  -- was asked before for one linked read and write for each window of the file, in order and
  -- without gap or overlap, has submitted all of it, and every batch, those that a full queue
  -- forced included, is made of whole pairs.
  pub submit_readv_writev_lem :
      (r : Ring) (h : Heap)
      → IsWhole u r
      → 0 < sz
      → sz < word_mod
      → Submitted r h (submit_readv_writev posix_memalign u input output (pos sz) start r h) 0
  unfolding submit_readv_writev
  submit_readv_writev_lem r h w some_bytes small =
      let s = windows_lem (suc sz) r h 0 w (omega arith) (omega arith) in
      let fits : sz % word_mod ≡ sz = omega arith in
      let not_empty : (sz == 0) ≡ false = ground arith in
      record {
        ring = s.ring;
        heap = s.heap;
        plan = s.plan;
        result =
            ap
              (λ n.
                if n == 0
                then ok (r, h, 0)
                else windows posix_memalign u (suc n) input output start n r h 0)
              fits
            ∙ rw not_empty s.result;
        whole = s.whole;
        drained = s.drained;
        more = s.more;
        tiles = s.tiles;
        steps = s.steps;
      }
