-- ===== src/SenderPipe/Reads.antt =====
-- What the inner loop of `read_file_request` asks of the ring.
use independent_study.Base.{
  ℕ, zero, suc, ◌+◌, ◌*◌, ◌≤◌, ◌<◌, ◌≡◌, refl, ap, subst, ◌∙◌, min, lt→ltb, le→ltb, List, [], ◌∷◌,
  ◌++◌, length, get_elem?, some, ok, false, arith,
}
use native.Mathlib.Decide.{dec_lt}
use independent_study.Liburing.{Fd, Sqe, readv, Liburing}
use independent_study.Liburing.Queue.{Queued, Queued-refl, Queued-trans, length-Queued, get_room}
use independent_study.SenderPipe.{q_depth, block, read_block, Reading, fill}

module _ (fd : Fd) (buffer : ℕ → ℕ) where
  -- A read of 4096 bytes at k * 4096, not linked, with the number of its buffer: the first three
  -- blocks have a buffer each, and all others the fourth.
  abbrev pub read_of : ℕ → Sqe ℕ
  read_of k = record {
    request = readv fd (record { iov_base = buffer (min k 3); iov_len = 4096 } ∷ []) (k * 4096);
    link = false;
    user_data = min k 3;
  }

  -- The reads of n blocks from block k on.
  abbrev pub reads : ℕ → ℕ → List (Sqe ℕ)
  reads k zero = []
  reads k (suc n) = read_of k ∷ reads (k + 1) n

  abbrev pub all_blocks : List ℕ
  all_blocks = buffer 0 ∷ buffer 1 ∷ buffer 2 ∷ buffer 3 ∷ []

  pub reads-append : (k m n : ℕ) → reads k m ++ reads (k + m) n ≡ reads k (m + n)
  reads-append k zero n =
      let none_before : k + 0 ≡ k = omega arith in
      let none_more : n ≡ 0 + n = omega arith in
      ap (λ j. reads j n) none_before ∙ ap (reads k) none_more
  reads-append k (suc m) n =
      let shift : k + suc m ≡ k + 1 + m = omega arith in
      let one_more : suc (m + n) ≡ suc m + n = omega arith in
      ap (λ j. read_of k ∷ reads (k + 1) m ++ reads j n) shift
      ∙ ap (λ l. read_of k ∷ l) (reads-append (k + 1) m n)
      ∙ ap (reads k) one_more

  length-reads : (k n : ℕ) → length (reads k n) ≡ n
  length-reads k zero = refl
  length-reads k (suc n) = omega (arith, length-reads (k + 1) n)

  get_block : (i : ℕ) → i < q_depth → get_elem? all_blocks i ≡ some (buffer i)
  get_block zero h = refl
  get_block (suc zero) h = refl
  get_block (suc (suc zero)) h = refl
  get_block (suc (suc (suc zero))) h = refl
  get_block (suc (suc (suc (suc i)))) h = absurd (omega arith)

  module _ (u : Liburing ℕ) (blocks : ℕ) where
    open u use {Ring, depth, queued, get_sqe, submit, submit_queued, submit_depth}

    -- The state before block k is asked for, of which `idx` entries are outstanding.
    pub record At (k idx : ℕ) (s : Reading u) : Type 0 where
      pub at_offset : s.offset ≡ k * block
      pub at_idx : s.idx ≡ idx
      pub in_file : k ≤ blocks
      pub in_depth : idx ≤ q_depth
      pub behind : idx ≤ k
      pub next_buffer : k < blocks → idx < q_depth → idx ≡ min k 3
      pub ring_depth : depth s.ring ≡ q_depth

    -- The result of the inner loop, with room for `left` more entries.
    pub record Filled (k idx left : ℕ) (s : Reading u) : Type 0 where
      pub asked : ℕ
      pub state : Reading u
      pub result : fill u left fd all_blocks (blocks * block) s ≡ ok state
      pub here : At (k + asked) (idx + asked) state
      pub full_or_done : idx + asked < q_depth → k + asked ≡ blocks
      pub entries : Queued u s.ring state.ring (reads k asked)
      pub same_total : state.total_read ≡ s.total_read

    Filled-stop :
        (k idx left : ℕ) (s : Reading u)
        → At k idx s
        → (idx < q_depth → k ≡ blocks)
        → fill u left fd all_blocks (blocks * block) s ≡ ok s
        → Filled k idx left s
    Filled-stop k idx left s a stop e =
        let none_k : k ≡ k + 0 = omega arith in
        let none_idx : idx ≡ idx + 0 = omega arith in
        record {
          asked = 0;
          state = s;
          result = e;
          here = subst (λ j. At j (idx + 0) s) none_k (subst (λ j. At k j s) none_idx a);
          full_or_done = λ h. omega (arith, stop (omega arith));
          entries = Queued-refl u s.ring;
          same_total = refl;
        }

    -- The state after one more entry.
    abbrev entered : ℕ → ℕ → (Sqe ℕ → Ring) → Reading u → Reading u
    entered k idx entry s = record s {
      ring = entry (read_block fd (buffer idx) s.idx s.offset);
      offset = s.offset + block;
      idx = s.idx + 1;
    }

    At-entered :
        (k idx : ℕ) (s : Reading u) (entry : Sqe ℕ → Ring)
        → At k idx s
        → k < blocks
        → idx < q_depth
        → ((x : Sqe ℕ) → Queued u s.ring (entry x) (x ∷ []))
        → At (k + 1) (idx + 1) (entered k idx entry s)
    At-entered k idx s entry a more room q = record {
      at_offset = omega (arith, a.at_offset);
      at_idx = omega (arith, a.at_idx);
      in_file = omega arith;
      in_depth = omega arith;
      behind = omega (arith, a.behind);
      next_buffer = λ h h'. omega (arith, a.next_buffer more room);
      ring_depth = (q (read_block fd (buffer idx) s.idx s.offset)).same_depth ∙ a.ring_depth;
    }

    read_block-At :
        (k idx : ℕ) (s : Reading u)
        → At k idx s
        → k < blocks
        → idx < q_depth
        → read_block fd (buffer idx) s.idx s.offset ≡ read_of k
    read_block-At k idx s a more room =
        let e = a.next_buffer more room in
        ap (λ i. read_block fd (buffer idx) i s.offset) (a.at_idx ∙ e)
        ∙ ap (λ i. read_block fd (buffer i) (min k 3) s.offset) e
        ∙ ap (read_block fd (buffer (min k 3)) (min k 3)) a.at_offset

    fill-entered :
        (k idx left : ℕ) (s : Reading u) (entry : Sqe ℕ → Ring)
        → At k idx s
        → k < blocks
        → idx < q_depth
        → get_sqe s.ring ≡ some entry
        → fill u (suc left) fd all_blocks (blocks * block) s
          ≡ fill u left fd all_blocks (blocks * block) (entered k idx entry s)
    unfolding fill
    fill-entered k idx left s entry a more room e =
        let below : s.offset < blocks * block = omega (arith, a.at_offset) in
        rw (lt→ltb s.offset (blocks * block) below, fill)
          (rw (e, fill) (rw (ap (get_elem? all_blocks) a.at_idx ∙ get_block idx room, fill) refl))

    Filled-entered :
        (k idx left : ℕ) (s : Reading u) (entry : Sqe ℕ → Ring)
        → At k idx s
        → k < blocks
        → idx < q_depth
        → get_sqe s.ring ≡ some entry
        → ((x : Sqe ℕ) → Queued u s.ring (entry x) (x ∷ []))
        → Filled (k + 1) (idx + 1) left (entered k idx entry s)
        → Filled k idx (suc left) s
    Filled-entered k idx left s entry a more room e q rest =
        let shift_k : k + 1 + rest.asked ≡ k + suc rest.asked = omega arith in
        let shift_idx : idx + 1 + rest.asked ≡ idx + suc rest.asked = omega arith in
        record {
          asked = suc rest.asked;
          state = rest.state;
          result = fill-entered k idx left s entry a more room e ∙ rest.result;
          here =
              subst (λ j. At j (idx + suc rest.asked) rest.state) shift_k
                (subst (λ j. At (k + 1 + rest.asked) j rest.state) shift_idx rest.here);
          full_or_done = λ h. omega (arith, rest.full_or_done (omega arith));
          entries =
              subst (λ x. Queued u s.ring rest.state.ring (x ∷ reads (k + 1) rest.asked))
                (read_block-At k idx s a more room)
                (Queued-trans u s.ring _ rest.state.ring (_ ∷ []) (reads (k + 1) rest.asked) (q _)
                  rest.entries);
          same_total = rest.same_total;
        }

    pub fill_lem :
        (left k idx : ℕ) (s : Reading u)
        → At k idx s
        → left + idx ≡ q_depth
        → length (queued s.ring) + left ≤ q_depth
        → Filled k idx left s
    unfolding fill
    fill_lem zero k idx s a sum room = Filled-stop k idx 0 s a (λ h. omega arith) refl
    fill_lem (suc left) k idx s a sum room = elim (dec_lt k blocks) [
      | no done ↦
          let beyond : blocks * block ≤ s.offset = omega (arith, a.at_offset) in
          Filled-stop k idx (suc left) s a (λ h. omega (arith, a.in_file))
            (rw (le→ltb s.offset (blocks * block) beyond, fill) refl)
      | yes more ↦
          let free : idx < q_depth = omega arith in
          let (entry, e, q) = get_room u s.ring (omega (arith, a.ring_depth)) in
          let next = entered k idx entry s in
          let one =
            length-Queued u s.ring next.ring _ (q (read_block fd (buffer idx) s.idx s.offset)) in
          Filled-entered k idx left s entry a more free e q (
            fill_lem left (k + 1) (idx + 1) next (At-entered k idx s entry a more free q)
              (omega arith) (omega (arith, one)))
    ]
