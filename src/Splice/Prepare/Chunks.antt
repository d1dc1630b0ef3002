-- ===== src/Splice/Prepare/Chunks.antt =====
-- The entries that `prepare_splice` should queue, and the loop in a queue with and without room.
use Prim.Native.Nat.{bit_or}
use independent_study.Base.{
  ℕ, zero, suc, ◌+◌, ◌-◌, ◌*◌, ◌%◌, ◌^◌, ◌≤◌, ◌<◌, min, ◌≡◌, refl, ap, subst, ap₂, ◌∙◌, lt→ltb,
  le→ltb, List, [], ◌∷◌, length, Outcome, ok, fail, ◌>>=◌, bind_assoc, undefined, pos, negsuc,
  false, to_word, arith,
}
use independent_study.Base.Bits.{bit_or_low}
use independent_study.Liburing.{Sqe, splice, Liburing}
use independent_study.Liburing.Queue.{Queued, Queued-refl, Queued-trans, length-Queued}
use independent_study.Liburing.Push.{push, push_room, push_full, Pushed-room, push_or_null}
use independent_study.Splice.{splice_chunk_size}
use independent_study.Splice.Prepare.{
  Handles, pack_output, drain_data, fill_data, drain_entry, fill_entry, prepare_chunk,
  prepare_chunks, prepare_splice,
}
use independent_study.Splice.Plan.{chunk_count}

-- What they should be: for each chunk a splice from the pipe's position into the output at the
-- chunk's offset, and one from the input at that offset into the pipe, neither linked. The word has
-- the descriptor in the high half, and below it the length, or 0 for the request that fills.
abbrev output_word : Handles → ℕ
output_word h = to_word h.output % 2 ^ 32 * 2 ^ 32

unfoldable pub entries_from : Handles → ℕ → ℕ → ℕ → List (Sqe ℕ)
entries_from h sz k zero = []
entries_from h sz k (suc n) =
    let off = k * splice_chunk_size in
    let len = min splice_chunk_size (sz - off) in
    record {
      request = splice h.pipe_r (negsuc 0) h.output (pos off) len;
      link = false;
      user_data = output_word h + len;
    }
    ∷ record {
      request = splice h.input (pos off) h.pipe_w (negsuc 0) len;
      link = false;
      user_data = output_word h;
    }
    ∷ entries_from h sz (k + 1) n

pack_output_lem : (h : Handles) (n : ℕ) → n < 2 ^ 32 → pack_output h n ≡ output_word h + n
unfolding pack_output
pack_output_lem h n lt =
    ap₂ bit_or (omega arith) (omega arith) ∙ bit_or_low 32 (to_word h.output % 2 ^ 32) n lt

module _ (u : Liburing ℕ) where
  open u use {Ring, depth, queued}

  -- One chunk with room for it.
  record Prepared (r : Ring) (h : Handles) (sz k : ℕ) : Type 0 where
    ring : Ring
    result :
        prepare_chunk u r h
          (k * splice_chunk_size)
          (min splice_chunk_size (sz - k * splice_chunk_size))
        ≡ ok ring
    added : Queued u r ring (entries_from h sz k 1)

  prepare_chunk_room :
      (r : Ring) (h : Handles) (sz k : ℕ) → length (queued r) + 2 ≤ depth r → Prepared r h sz k
  unfolding prepare_chunk drain_entry fill_entry entries_from
  prepare_chunk_room r h sz k room =
      let off = k * splice_chunk_size in
      let len = min splice_chunk_size (sz - off) in
      let p = push_room u r (drain_entry h off len) (omega arith) in
      let hp = Pushed-room u r (drain_entry h off len) p 1 (omega arith) in
      let q = push_room u p.ring (fill_entry h off len) (omega (arith, hp)) in
      let same : drain_entry h off len ∷ fill_entry h off len ∷ [] ≡ entries_from h sz k 1 =
        ap₂ (λ a b. drain_data h off len a ∷ fill_data h off len b ∷ [])
          (pack_output_lem h len (omega arith)) (pack_output_lem h 0 (omega arith) ∙ omega arith) in
      record {
        ring = q.ring;
        result = rw p.result q.result;
        added =
            subst (Queued u r q.ring) same
              (Queued-trans u r p.ring q.ring (drain_entry h off len ∷ []) _ p.entry q.entry);
      }

  prepare_chunks_room :
      (fuel j k : ℕ) (h : Handles) (sz : ℕ) (r : Ring) (total count : ℕ)
      → j < fuel
      → total ≡ min (k * splice_chunk_size) sz
      → k + j ≡ chunk_count sz
      → length (queued r) + 2 * j ≤ depth r
      → (r' : Ring) × (prepare_chunks u fuel h sz r total count ≡ ok (r', count + 2 * j))
        × Queued u r r' (entries_from h sz k j)
  unfolding prepare_chunks entries_from
  prepare_chunks_room zero j k h sz r total count lt at all room = absurd (omega arith)
  prepare_chunks_room (suc fuel) zero k h sz r total count lt at all room = (
    r,
    rw (prepare_chunks, le→ltb total sz (omega arith)) (ap (λ (n : ℕ). ok (r, n)) (omega arith)),
    Queued-refl u r,
  )
  prepare_chunks_room (suc fuel) (suc j) k h sz r total count lt at all room =
      let off : total ≡ k * splice_chunk_size = omega arith in
      let p = prepare_chunk_room r h sz k (omega arith) in
      let chunk = ap (λ t. prepare_chunk u r h t (min splice_chunk_size (sz - t))) off ∙ p.result in
      let (r', e, q) =
        prepare_chunks_room fuel j (k + 1) h sz p.ring (total + min splice_chunk_size (sz - total))
          (count + 2) (omega arith) (omega arith) (omega arith)
          (omega (arith, length-Queued u r p.ring _ p.added, p.added.same_depth)) in
      (
        r',
        rw (prepare_chunks, lt→ltb total sz (omega arith))
            (rw chunk (e ∙ ap (λ (n : ℕ). ok (r', n)) (omega arith))),
        Queued-trans u r p.ring r' (entries_from h sz k 1) _ p.added q,
      )

  -- The second push of a chunk, with j chunks behind it.
  fill_full :
      {B : Type 0} (j : ℕ) (half : Ring) (s : Sqe ℕ) (rest : Ring → Outcome B)
      → depth half ≤ length (queued half) + 2 * j
      → ((i : ℕ) (t : Ring)
          → j ≡ suc i
          → depth t ≤ length (queued t) + suc (2 * i)
          → rest t ≡ fail undefined)
      → (push u half s >>= rest) ≡ fail undefined
  fill_full zero half s rest full onward = rw (push_full u half s (omega arith))
  fill_full (suc i) half s rest full onward =
      push_or_null u half s rest (suc (2 * i)) (omega arith) λ t free. onward i t refl free

  -- Too few entries for the chunks that are left: one of the pushes meets a full queue.
  prepare_chunks_full :
      (fuel j k : ℕ) (h : Handles) (sz : ℕ) (r : Ring) (total count : ℕ)
      → j < fuel
      → total ≡ min (k * splice_chunk_size) sz
      → k + suc j ≡ chunk_count sz
      → depth r ≤ length (queued r) + suc (2 * j)
      → prepare_chunks u fuel h sz r total count ≡ fail undefined
  unfolding prepare_chunks prepare_chunk
  prepare_chunks_full zero j k h sz r total count lt at all full = absurd (omega arith)
  prepare_chunks_full (suc fuel) j k h sz r total count lt at all full =
      let len = min splice_chunk_size (sz - total) in
      rw (prepare_chunks, lt→ltb total sz (omega arith))
        (bind_assoc (push u r (drain_entry h total len)) _ _
          ∙ push_or_null u r (drain_entry h total len) _ (2 * j) full λ half free.
            fill_full j half (fill_entry h total len) _ free λ i t e free'.
              prepare_chunks_full fuel i (k + 1) h sz t (total + len) (count + 2) (omega (arith, e))
                (omega arith) (omega (arith, e)) free')

  -- With two free entries for each chunk of the input, `prepare_splice` returns twice the number of
  -- chunks and has queued, behind what was there, for each chunk in order the splice from the pipe
  -- into the output at the chunk's offset and the splice from the input into the pipe, with the
  -- low half of the output's descriptor in the high half of both words and the chunk's length in
  -- the low half of the first.
  pub prepare_splice_lem :
      (r : Ring) (h : Handles) (sz : ℕ)
      → length (queued r) + 2 * chunk_count sz ≤ depth r
      → (r' : Ring) × (prepare_splice u r (pos sz) h ≡ ok (r', 2 * chunk_count sz))
        × Queued u r r' (entries_from h sz 0 (chunk_count sz))
  unfolding prepare_splice
  prepare_splice_lem r h sz room =
      let (r', e, q) =
        prepare_chunks_room (suc sz) (chunk_count sz) 0 h sz r 0 0 (omega arith) (omega arith)
          (omega arith) room in
      (r', e ∙ ap (λ (n : ℕ). ok (r', n)) (omega arith), q)

  -- With fewer free entries than that, of a queue that holds at most its depth, `prepare_splice`
  -- writes through a null pointer: it submits nothing that would make room.
  pub prepare_splice_full :
      (r : Ring) (h : Handles) (sz : ℕ)
      → length (queued r) ≤ depth r
      → depth r < length (queued r) + 2 * chunk_count sz
      → prepare_splice u r (pos sz) h ≡ fail undefined
  unfolding prepare_splice
  prepare_splice_full r h sz holds full =
      prepare_chunks_full (suc sz) (chunk_count sz - 1) 0 h sz r 0 0 (omega arith) (omega arith)
        (omega arith) (omega arith)
