-- ===== src/Liburing/Links.antt =====
-- What IOSQE_IO_LINK makes of the entries of a submission: an entry with the flag is followed by the
-- next one of its chain, and a chain ends with an entry without it, or with the submission.
use independent_study.Base.{
  if◌then◌else◌, List, [], ◌∷◌, map, concat, ◌≡◌, refl, ap, ◌∙◌, true, false,
}
use independent_study.Liburing.{Sqe}

module _ {D : Type 0} where
  abbrev pub attach : Sqe D → List (List (Sqe D)) → List (List (Sqe D))
  attach s [] = (s ∷ []) ∷ []
  attach s (c ∷ cs) = if s.link then (s ∷ c) ∷ cs else (s ∷ []) ∷ c ∷ cs

  -- The chains of one submission.
  abbrev pub chains : List (Sqe D) → List (List (Sqe D))
  chains [] = []
  chains (s ∷ ss) = attach s (chains ss)

  -- The chains of all submissions.
  abbrev pub all_chains : List (List (Sqe D)) → List (List (Sqe D))
  all_chains batches = concat (map chains batches)

  attach_last :
      (s : Sqe D) (cs : List (List (Sqe D))) → s.link ≡ false → attach s cs ≡ (s ∷ []) ∷ cs
  attach_last s [] e = refl
  attach_last s (c ∷ cs) e = rw e refl

  -- A linked entry before one that is not linked.
  pub attach_pair :
      (s t : Sqe D) (cs : List (List (Sqe D)))
      → s.link ≡ true
      → t.link ≡ false
      → attach s (attach t cs) ≡ (s ∷ t ∷ []) ∷ cs
  attach_pair s t cs linked last = ap (attach s) (attach_last t cs last) ∙ rw linked refl
