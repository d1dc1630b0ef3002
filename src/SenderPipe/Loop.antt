-- ===== src/SenderPipe/Loop.antt =====
-- What the read loop of `read_file_request` asks of the ring, and how it ends.
use independent_study.Base.{
  ℕ, ◌+◌, ◌-◌, ◌*◌, ◌≤◌, ◌<◌, ◌≡◌, ◌⊎◌, inl, inr, refl, ap, sym, subst, ◌∙◌, true, false, ◌||◌, ltb,
  ◌==◌, List, [], ◌∷◌, ◌++◌, length, map, Outcome, ok, fail, undefined, pos, negsuc, append_assoc,
  append-nil, arith,
}
use independent_study.Base.Sums.{weigh}
use independent_study.Liburing.{Fd, Wait, failed, got, Liburing}
use independent_study.Liburing.Queue.{sent, sent-Queued, sent-submit}
use independent_study.SenderPipe.{q_depth, block, Reading, read_loop}
use independent_study.SenderPipe.Reads.{reads, reads-append, all_blocks, At, Filled, fill_lem}

-- A read that succeeded: its index, and the bytes that it gave.
abbrev pub complete : ℕ × ℕ → Wait ℕ
complete (i, bytes) = got (record { user_data = i; res = pos bytes })

abbrev pub bytes_of : List (ℕ × ℕ) → ℕ
bytes_of = weigh (λ c. c.1)

not_zero : (n : ℕ) → 0 < n → (n == 0) ≡ false
not_zero n h = ground arith

module _ (fd : Fd) (buffer : ℕ → ℕ) (u : Liburing ℕ) (blocks : ℕ) where
  open u use {Ring, queued, submit, submit_queued, submit_depth}

  abbrev run : List (Wait ℕ) → Reading u → Outcome (Reading u)
  run = read_loop u fd (all_blocks fd buffer) (blocks * block)

  abbrev collected : Reading u → ℕ → Reading u
  collected t bytes = record t {
    ring = submit t.ring;
    idx = t.idx - 1;
    total_read = t.total_read + bytes;
  }

  -- There is more to ask for, or an entry is outstanding.
  abbrev Busy : ℕ → ℕ → Type 0
  Busy k idx = (k < blocks) ⊎ (0 < idx)

  goes_on :
      (k idx : ℕ) (s : Reading u)
      → At fd buffer u blocks k idx s
      → Busy k idx
      → (ltb s.offset (blocks * block) || ltb 0 s.idx) ≡ true
  goes_on k idx s a (inl more) =
      let below : s.offset < blocks * block = omega (arith, a.at_offset) in ground (arith, below)
  goes_on k idx s a (inr busy) =
      let waiting : 0 < s.idx = omega (arith, a.at_idx) in ground (arith, waiting)

  stops :
      (s : Reading u)
      → At fd buffer u blocks blocks 0 s
      → (ltb s.offset (blocks * block) || ltb 0 s.idx) ≡ false
  stops s a =
      let beyond : blocks * block ≤ s.offset = omega (arith, a.at_offset) in
      let idle : s.idx ≤ 0 = omega (arith, a.at_idx) in ground (arith, beyond, idle)

  -- What the inner loop does at the head of the outer one.
  abbrev Asked : ℕ → ℕ → Reading u → Type 0
  Asked k idx s = Filled fd buffer u blocks k idx (q_depth - s.idx) s

  pub ask :
      (k idx : ℕ) (s : Reading u)
      → At fd buffer u blocks k idx s
      → queued s.ring ≡ []
      → Asked k idx s
  ask k idx s a empty =
      fill_lem fd buffer u blocks (q_depth - s.idx) k idx s a (omega (arith, a.at_idx, a.in_depth))
        (omega (arith, ap length empty))

  pub waits_for : (k idx : ℕ) (s : Reading u) (f : Asked k idx s) → Busy k idx → 0 < f.state.idx
  waits_for k idx s f (inl more) = ground (arith, f.here.at_idx, f.full_or_done)
  waits_for k idx s f (inr busy) = omega (arith, f.here.at_idx)

  run-complete :
      (k idx : ℕ) (s : Reading u) (c : ℕ × ℕ) (ws : List (Wait ℕ)) (f : Asked k idx s)
      → At fd buffer u blocks k idx s
      → Busy k idx
      → run (complete c ∷ ws) s ≡ run ws (collected f.state c.1)
  unfolding read_loop
  run-complete k idx s c ws f a busy =
      rw (goes_on k idx s a busy, read_loop)
        (rw (f.result, read_loop)
          (rw (not_zero f.state.idx (waits_for k idx s f busy), read_loop) refl))

  pub run-error :
      (k idx : ℕ) (s : Reading u) (i n : ℕ) (ws : List (Wait ℕ)) (f : Asked k idx s)
      → At fd buffer u blocks k idx s
      → Busy k idx
      → run (got (record { user_data = i; res = negsuc n }) ∷ ws) s
        ≡ ok (record f.state { ring = submit f.state.ring })
  unfolding read_loop
  run-error k idx s i n ws f a busy =
      rw (goes_on k idx s a busy, read_loop)
        (rw (f.result, read_loop)
          (rw (not_zero f.state.idx (waits_for k idx s f busy), read_loop) refl))

  pub run-failed :
      (k idx : ℕ) (s : Reading u) (ws : List (Wait ℕ)) (f : Asked k idx s)
      → At fd buffer u blocks k idx s
      → Busy k idx
      → run (failed ∷ ws) s ≡ fail undefined
  unfolding read_loop
  run-failed k idx s ws f a busy =
      rw (goes_on k idx s a busy, read_loop)
        (rw (f.result, read_loop)
          (rw (not_zero f.state.idx (waits_for k idx s f busy), read_loop) refl))

  pub run-stops :
      (s : Reading u) (ws : List (Wait ℕ)) → At fd buffer u blocks blocks 0 s → run ws s ≡ ok s
  unfolding read_loop
  run-stops s [] a = rw (stops s a, read_loop) refl
  run-stops s (failed ∷ ws) a = rw (stops s a, read_loop) refl
  run-stops s (got c ∷ ws) a = rw (stops s a, read_loop) refl

  At-collected :
      (k idx : ℕ) (s : Reading u) (bytes : ℕ) (f : Asked k idx s)
      → Busy k idx
      → At fd buffer u blocks (k + f.asked) (idx + f.asked - 1) (collected f.state bytes)
  At-collected k idx s bytes f busy =
      let outstanding = waits_for k idx s f busy in
      record {
        at_offset = f.here.at_offset;
        at_idx = omega (arith, f.here.at_idx);
        in_file = f.here.in_file;
        in_depth = omega (arith, f.here.in_depth);
        behind = omega (arith, f.here.behind);
        next_buffer = λ more room.
            ground
              (arith, f.full_or_done, f.here.in_depth, f.here.behind, f.here.at_idx, outstanding);
        ring_depth = submit_depth f.state.ring ∙ f.here.ring_depth;
      }

  -- The head of the loop after the reads `cs` have completed.
  pub record Progress (k idx : ℕ) (cs : List (ℕ × ℕ)) (s : Reading u) : Type 0 where
    pub asked : ℕ
    pub left : ℕ
    pub state : Reading u
    pub result : (ws : List (Wait ℕ)) → run (map complete cs ++ ws) s ≡ run ws state
    pub here : At fd buffer u blocks (k + asked) left state
    pub empty : queued state.ring ≡ []
    pub outstanding : left + length cs ≡ idx + asked
    pub order : sent u state.ring ≡ sent u s.ring ++ reads fd buffer k asked
    pub total : state.total_read ≡ s.total_read + bytes_of cs

  Progress-none :
      (k idx : ℕ) (s : Reading u)
      → At fd buffer u blocks k idx s
      → queued s.ring ≡ []
      → Progress k idx [] s
  Progress-none k idx s a empty =
      let same : k ≡ k + 0 = omega arith in
      record {
        asked = 0;
        left = idx;
        state = s;
        result = λ ws. refl;
        here = subst (λ j. At fd buffer u blocks j idx s) same a;
        empty = empty;
        outstanding = refl;
        order = sym (append-nil (sent u s.ring));
        total = omega arith;
      }

  pub collected-order :
      (k idx : ℕ) (s : Reading u) (bytes : ℕ) (f : Asked k idx s)
      → sent u (collected f.state bytes).ring ≡ sent u s.ring ++ reads fd buffer k f.asked
  collected-order k idx s bytes f =
      sent-submit u f.state.ring
      ∙ sent-Queued u s.ring f.state.ring (reads fd buffer k f.asked) f.entries

  Progress-more :
      (k idx : ℕ) (s : Reading u) (c : ℕ × ℕ) (cs : List (ℕ × ℕ)) (f : Asked k idx s)
      → At fd buffer u blocks k idx s
      → Busy k idx
      → Progress (k + f.asked) (idx + f.asked - 1) cs (collected f.state c.1)
      → Progress k idx (c ∷ cs) s
  Progress-more k idx s c cs f a busy p =
      let shift : k + f.asked + p.asked ≡ k + (f.asked + p.asked) = omega arith in
      record {
        asked = f.asked + p.asked;
        left = p.left;
        state = p.state;
        result = λ ws. run-complete k idx s c (map complete cs ++ ws) f a busy ∙ p.result ws;
        here = subst (λ j. At fd buffer u blocks j p.left p.state) shift p.here;
        empty = p.empty;
        outstanding = omega (arith, p.outstanding, waits_for k idx s f busy, f.here.at_idx);
        order =
            p.order
            ∙ ap (λ l. l ++ reads fd buffer (k + f.asked) p.asked) (collected-order k idx s c.1 f)
            ∙ append_assoc (sent u s.ring) (reads fd buffer k f.asked) _
            ∙ ap (λ l. sent u s.ring ++ l) (reads-append fd buffer k f.asked p.asked);
        total = omega (arith, p.total, f.same_total);
      }

  pub busy : (k idx : ℕ) → k < blocks + idx → k ≤ blocks → Busy k idx
  busy k idx h h' = ground arith

  pub progress_lem :
      (cs : List (ℕ × ℕ)) (k idx : ℕ) (s : Reading u)
      → At fd buffer u blocks k idx s
      → queued s.ring ≡ []
      → length cs + k ≤ blocks + idx
      → Progress k idx cs s
  progress_lem [] k idx s a empty fits = Progress-none k idx s a empty
  progress_lem (c ∷ cs) k idx s a empty fits =
      let f = ask k idx s a empty in
      let more = busy k idx (omega arith) a.in_file in
      Progress-more k idx s c cs f a more (
        progress_lem cs (k + f.asked) (idx + f.asked - 1) (collected f.state c.1)
          (At-collected k idx s c.1 f more) (submit_queued f.state.ring)
          (omega (arith, waits_for k idx s f more, f.here.at_idx)))
