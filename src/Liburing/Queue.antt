-- ===== src/Liburing/Queue.antt =====
-- What has been asked of a ring so far, and how the operations on its queue extend that.
use independent_study.Base.{
  ◌+◌, ◌<◌, ◌≡◌, refl, ap, sym, ◌∙◌, List, [], ◌∷◌, ◌++◌, length, some, concat, concat-snoc,
  append-nil, append_assoc, length-append,
}
use independent_study.Liburing.{Sqe, Liburing}

module _ {D : Type 0} (u : Liburing D) where
  open u use {
    Ring, depth, queued, batches, get_sqe, submit, get_full, get_free, submit_queued,
    submit_batches, submit_depth,
  }

  -- All requests so far in order, whether submitted or not.
  abbrev pub sent : Ring → List (Sqe D)
  sent r = concat (batches r) ++ queued r

  -- `r'` is `r` with the entries `ss` queued behind what was there.
  pub record Queued (r r' : Ring) (ss : List (Sqe D)) : Type 0 where
    pub more : queued r' ≡ queued r ++ ss
    pub same_batches : batches r' ≡ batches r
    pub same_depth : depth r' ≡ depth r

  pub Queued-refl : (r : Ring) → Queued r r []
  Queued-refl r = record {
    more = sym (append-nil (queued r));
    same_batches = refl;
    same_depth = refl;
  }

  pub Queued-trans :
      (r s t : Ring) (xs ys : List (Sqe D)) → Queued r s xs → Queued s t ys → Queued r t (xs ++ ys)
  Queued-trans r s t xs ys p q = record {
    more = q.more ∙ ap (λ zs. zs ++ ys) p.more ∙ append_assoc (queued r) xs ys;
    same_batches = q.same_batches ∙ p.same_batches;
    same_depth = q.same_depth ∙ p.same_depth;
  }

  pub length-Queued :
      (r s : Ring) (xs : List (Sqe D))
      → Queued r s xs
      → length (queued s) ≡ length (queued r) + length xs
  length-Queued r s xs p = ap length p.more ∙ length-append (queued r) xs

  pub get_room :
      (r : Ring)
      → length (queued r) < depth r
      → (fill : Sqe D → Ring) × (get_sqe r ≡ some fill) × ((s : Sqe D) → Queued r (fill s) (s ∷ []))
  get_room r h =
      let (fill, e, q, b, d) = get_free r h in
      (fill, e, λ s. record { more = q s; same_batches = b s; same_depth = d s })

  pub sent-Queued : (r s : Ring) (xs : List (Sqe D)) → Queued r s xs → sent s ≡ sent r ++ xs
  sent-Queued r s xs p =
      ap (λ b. concat b ++ queued s) p.same_batches
      ∙ ap (λ q. concat (batches r) ++ q) p.more
      ∙ sym (append_assoc (concat (batches r)) (queued r) xs)

  pub sent-submit : (r : Ring) → sent (submit r) ≡ sent r
  sent-submit r =
      ap (λ q. concat (batches (submit r)) ++ q) (submit_queued r)
      ∙ append-nil (concat (batches (submit r)))
      ∙ ap concat (submit_batches r)
      ∙ concat-snoc (batches r) (queued r)
