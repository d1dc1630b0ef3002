-- ===== src/UringVec/Plan.antt =====
-- What the requests of `perform_uring_broadcast` add up to: its outputs one after the other, each
-- with the windows of the file.
use independent_study.Base.{
  ℕ, ◌+◌, ◌-◌, ◌*◌, ◌/◌, ◌<◌, ◌≡◌, refl, ap, sym, subst, ◌∙◌, min, List, [], ◌∷◌, ◌++◌, length,
  append-nil, append_assoc, Option, none, some, ok, pos, word_mod, arith,
}
use independent_study.Base.Sums.{weigh, weigh-append}
use independent_study.Liburing.{Fd, Sqe, Liburing}
use independent_study.Liburing.Queue.{sent}
use independent_study.UringVec.{Data, block_sz, window_size, submit_all}
use independent_study.UringVec.Context.{Allocates, Allocates-append, pointers, pointers-append}
use independent_study.UringVec.Pairs.{IsWhole}
use independent_study.UringVec.Windows.{Window, Tiles, submit_readv_writev_lem}

-- The bytes that a request's context stands for, and whether it has one.
abbrev pub data_bytes : Data → ℕ
data_bytes none = 0
data_bytes (some ctx) = ctx.bytes

abbrev pub carries : Data → ℕ
carries none = 0
carries (some ctx) = 1

abbrev pub plan_bytes : List (Sqe Data) → ℕ
plan_bytes = weigh (λ s. data_bytes s.user_data)

abbrev pub plan_contexts : List (Sqe Data) → ℕ
plan_contexts = weigh (λ s. carries s.user_data)

abbrev pub windows_of : ℕ → ℕ
windows_of n = (n + (window_size - 1)) / window_size

module _ (input output : Fd) (start sz : ℕ) where
  Window-bytes :
      (from : ℕ) (rd wr : Sqe Data)
      → Window input output start sz from rd wr
      → data_bytes rd.user_data + data_bytes wr.user_data ≡ min window_size (sz - from)
  Window-bytes from rd wr w = omega (
    arith,
    ap (λ (s : Sqe Data). data_bytes s.user_data) w.reads,
    ap (λ (s : Sqe Data). data_bytes s.user_data) w.writes,
    w.recorded,
  )

  Window-carries :
      (from : ℕ) (rd wr : Sqe Data)
      → Window input output start sz from rd wr
      → carries rd.user_data + carries wr.user_data ≡ 1
  Window-carries from rd wr w = omega (
    arith,
    ap (λ (s : Sqe Data). carries s.user_data) w.reads,
    ap (λ (s : Sqe Data). carries s.user_data) w.writes,
  )

  pub plan_bytes-Tiles :
      (from : ℕ) (plan : List (Sqe Data))
      → Tiles input output start sz from plan
      → from + plan_bytes plan ≡ sz
  plan_bytes-Tiles from [] t = omega (arith, t)
  plan_bytes-Tiles from (rd ∷ []) t = absurd t
  plan_bytes-Tiles from (rd ∷ wr ∷ plan) (w, t) =
      let n = min window_size (sz - from) in
      omega (arith, Window-bytes from rd wr w, plan_bytes-Tiles (from + n) plan t)

  pub plan_contexts-Tiles :
      (from : ℕ) (plan : List (Sqe Data))
      → Tiles input output start sz from plan
      → plan_contexts plan ≡ windows_of (sz - from)
  plan_contexts-Tiles from [] t = omega (arith, t)
  plan_contexts-Tiles from (rd ∷ []) t = absurd t
  plan_contexts-Tiles from (rd ∷ wr ∷ plan) (w, t) =
      let n = min window_size (sz - from) in
      omega (arith, w.inside, Window-carries from rd wr w, plan_contexts-Tiles (from + n) plan t)

-- One output's windows of the whole file after the other's.
abbrev pub OutputTiles : Fd → ℕ → List Fd → List (Sqe Data) → Type 0
OutputTiles input sz [] plan = plan ≡ []
OutputTiles input sz (out ∷ outs) plan =
    (here : List (Sqe Data)) × (rest : List (Sqe Data)) × (plan ≡ here ++ rest)
    × Tiles input out 0 sz 0 here
    × OutputTiles input sz outs rest

module _ {Heap : Type 0} (posix_memalign : ℕ → ℕ → Heap → Option (ℕ × Heap))
    (never_fails : (h : Heap)
      → (p : ℕ) × (h' : Heap) × (posix_memalign 4096 block_sz h ≡ some (p, h')))
    (u : Liburing Data) (input : Fd) (sz : ℕ) (some_bytes : 0 < sz) (small : sz < word_mod) where
  open u use {Ring, queued}

  -- The requests for all outputs, and the blocks that their contexts hold.
  pub record Planned (outs : List Fd) (r : Ring) (h : Heap) : Type 0 where
    pub ring : Ring
    pub heap : Heap
    pub plan : List (Sqe Data)
    pub result : submit_all posix_memalign u input outs (pos sz) r h ≡ ok (ring, heap)
    pub whole : IsWhole u ring
    pub more : sent u ring ≡ sent u r ++ plan
    pub drained : queued r ≡ [] → queued ring ≡ []
    pub bytes : plan_bytes plan ≡ length outs * sz
    pub contexts : plan_contexts plan ≡ length outs * windows_of sz
    pub tiles : OutputTiles input sz outs plan
    pub steps : Allocates posix_memalign (pointers plan) h heap

  pub submit_all_lem : (outs : List Fd) (r : Ring) (h : Heap) → IsWhole u r → Planned outs r h
  unfolding submit_all
  submit_all_lem [] r h whole = record {
    ring = r;
    heap = h;
    plan = [];
    result = refl;
    whole = whole;
    more = sym (append-nil (sent u r));
    drained = λ e. e;
    bytes = omega arith;
    contexts = omega arith;
    tiles = refl;
    steps = refl;
  }
  submit_all_lem (out ∷ outs) r h whole =
      let s =
        submit_readv_writev_lem posix_memalign never_fails u input out 0 sz r h whole some_bytes
          small in
      let rest = submit_all_lem outs s.ring s.heap s.whole in
      record {
        ring = rest.ring;
        heap = rest.heap;
        plan = s.plan ++ rest.plan;
        result = rw (s.result, submit_all) rest.result;
        whole = rest.whole;
        more =
            rest.more
            ∙ ap (λ ss. ss ++ rest.plan) s.more
            ∙ append_assoc (sent u r) s.plan rest.plan;
        drained = λ e. rest.drained s.drained;
        bytes = omega (
          arith,
          weigh-append (λ (q : Sqe Data). data_bytes q.user_data) s.plan rest.plan,
          plan_bytes-Tiles input out 0 sz 0 s.plan s.tiles,
          rest.bytes,
        );
        contexts = omega (
          arith,
          weigh-append (λ (q : Sqe Data). carries q.user_data) s.plan rest.plan,
          plan_contexts-Tiles input out 0 sz 0 s.plan s.tiles,
          rest.contexts,
        );
        tiles = (s.plan, rest.plan, refl, s.tiles, rest.tiles);
        steps =
            subst (λ ps. Allocates posix_memalign ps h rest.heap)
              (sym (pointers-append s.plan rest.plan))
              (Allocates-append posix_memalign (pointers s.plan) (pointers rest.plan) h s.heap
                rest.heap s.steps rest.steps);
      }
