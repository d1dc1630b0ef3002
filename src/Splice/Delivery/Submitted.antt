-- ===== src/Splice/Delivery/Submitted.antt =====
-- The order in which the broadcast submits its requests keeps those of each output in order, and
-- so does any order that delivers the file.
use independent_study.Base.{
  ℕ, zero, suc, ◌+◌, ◌-◌, ◌*◌, ◌≡◌, refl, ap, sym, subst, min, List, [], ◌∷◌, ◌++◌, append_assoc,
  length, map, set, get_elem?, concat, All, some, ok, pos,
}
use independent_study.Base.Interleave.{Interleave, finished, taken}
use independent_study.Liburing.{Fd, Sqe, Cqe, got, Liburing}
use independent_study.Kernel.{Kernel, Transfers, run_all}
use independent_study.Splice.{
  splice_chunk_size, queue_depth, Output, fill_pipe, drain_pipe, Progress, broadcast,
}
use independent_study.Splice.Plan.{pairs, chunks_from, chunk_count}
use independent_study.Splice.Complete.{broadcast_complete}
use independent_study.Splice.Delivery.Any.{Wired, queues, Fresh, any_order}

get_middle :
    {A : Type 0} (pre : List A) (x : A) (post : List A)
    → get_elem? (pre ++ x ∷ post) (length pre) ≡ some x
get_middle [] x post = refl
get_middle (y ∷ pre) x post = get_middle pre x post

set_middle :
    {A : Type 0} (pre : List A) (x y : A) (post : List A)
    → set (pre ++ x ∷ post) (length pre) y ≡ pre ++ y ∷ post
set_middle [] x y post = refl
set_middle (z ∷ pre) x y post = ap (λ l. z ∷ l) (set_middle pre x y post)

-- A step that takes the head of the queue between `pre` and `post`.
taken_middle :
    {A : Type 0} (pre : List (List A)) (x : A) (rest : List A) (post : List (List A)) (xs : List A)
    → Interleave (pre ++ rest ∷ post) xs
    → Interleave (pre ++ (x ∷ rest) ∷ post) (x ∷ xs)
taken_middle pre x rest post xs more =
    taken (pre ++ (x ∷ rest) ∷ post) (length pre) x rest xs (get_middle pre (x ∷ rest) post)
      (subst (λ qs. Interleave qs xs) (sym (set_middle pre (x ∷ rest) rest post)) more)

module _ (source : Fd) where
  -- One chunk for each of the outputs `os`, behind the queues `pre`.
  pairs-Interleave :
      (os : List Output) (off len : ℕ) (tails : Output → List (Sqe ℕ)) (pre : List (List (Sqe ℕ)))
      (xs : List (Sqe ℕ))
      → Interleave (pre ++ map tails os) xs
      → Interleave
          (pre
            ++ map (λ (o : Output). fill_pipe source o off len ∷ drain_pipe o off len ∷ tails o) os)
          (pairs source os off len ++ xs)
  pairs-Interleave [] off len tails pre xs more = more
  pairs-Interleave (o ∷ os) off len tails pre xs more =
      let one = λ (o : Output). fill_pipe source o off len ∷ drain_pipe o off len ∷ tails o in
      let behind : Interleave ((pre ++ tails o ∷ []) ++ map one os)
          (pairs source os off len ++ xs) =
        pairs-Interleave os off len tails (pre ++ tails o ∷ []) xs (
          subst (λ qs. Interleave qs xs) (sym (append_assoc pre (tails o ∷ []) (map tails os)))
            more) in
      taken_middle pre (fill_pipe source o off len) (drain_pipe o off len ∷ tails o) (map one os) _
        (taken_middle pre (drain_pipe o off len) (tails o) (map one os) _ (
          subst (λ qs. Interleave qs (pairs source os off len ++ xs))
            (append_assoc pre (tails o ∷ []) (map one os)) behind))

  abbrev nothing : Output → List (Sqe ℕ)
  nothing o = []

  none_to_come : (os : List Output) → All (λ (q : List (Sqe ℕ)). q ≡ []) (map nothing os)
  none_to_come [] = tt
  none_to_come (o ∷ os) = (refl, none_to_come os)

  chunks_from-Interleave :
      (os : List Output) (sz k n : ℕ)
      → Interleave
          (map (λ (o : Output). chunks_from source (o ∷ []) sz k n) os)
          (chunks_from source os sz k n)
  unfolding chunks_from
  chunks_from-Interleave os sz k zero = finished _ (none_to_come os)
  chunks_from-Interleave os sz k (suc n) =
      pairs-Interleave os (k * splice_chunk_size)
        (min splice_chunk_size (sz - k * splice_chunk_size))
        (λ o. chunks_from source (o ∷ []) sz (k + 1) n) [] (chunks_from source os sz (k + 1) n)
        (chunks_from-Interleave os sz (k + 1) n)

-- Let the number of outputs divide 256 and every request complete. Let the source hold `src`, let
-- the outputs have files and pipes of their own, empty at first, and let the kernel move all bytes
-- of a transfer. Then the broadcast ends; what it has submitted keeps the requests of each output
-- in the order of the chunks; and the kernel may carry out its requests in any order that does
-- that, whatever the order between outputs: each output then holds exactly the bytes of the source.
pub broadcast_delivers :
    (u : Liburing ℕ) (k : Kernel) (t : Transfers k) (source : Fd) (os : List Output) (m : ℕ)
    (wired : Wired k t source os) (src : List ℕ) (r : u.Ring) (cs : List (Cqe ℕ))
    (ss : List (Sqe ℕ)) (w : k.World)
    → length os * m ≡ 256
    → u.queue_init queue_depth ≡ some r
    → length cs ≡ chunk_count (length src) * (2 * length os)
    → Interleave (queues source os (length src)) ss
    → Fresh k t source os wired src w
    → (p : Progress u) × (broadcast u r (pos (length src)) source os (map got cs) ≡ ok p)
      × Interleave (queues source os (length src)) (concat (u.batches p.ring))
      × ((i : ℕ) (o : Output) → get_elem? os i ≡ some o → t.content o.file (run_all k ss w) ≡ src)
broadcast_delivers u k t source os m wired src r cs ss w divides e complete order fresh =
    let (p, done, submitted, _, _) =
      broadcast_complete u source os (length src) m r cs divides e complete in
    (
      p,
      done,
      subst (Interleave (queues source os (length src))) (sym submitted)
          (chunks_from-Interleave source os (length src) 0 (chunk_count (length src))),
      any_order k t source os wired src ss w order fresh,
    )
