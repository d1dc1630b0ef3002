-- ===== src/Liburing/Sim.antt =====
-- A submission queue that meets the laws of `Liburing`, for runs on concrete inputs.
use independent_study.Base.{
  ℕ, ◌^◌, ◌≤◌, ◌<◌, ◌≡◌, refl, ap, List, [], ◌∷◌, ◌++◌, length, Option, none, some, ltb,
  if◌then◌else◌, lt→ltb, le→ltb,
}
use independent_study.Liburing.{Sqe, Liburing}

pub record Ring (D : Type 0) : Type 0 where
  pub depth : ℕ
  pub queued : List (Sqe D)
  pub batches : List (List (Sqe D))

module _ {D : Type 0} where
  abbrev pub queue_init : ℕ → Option (Ring D)
  queue_init n = some (record { depth = n; queued = []; batches = [] })

  abbrev pub filled : Ring D → Sqe D → Ring D
  filled r s = record r { queued = r.queued ++ s ∷ [] }

  abbrev pub get_sqe : Ring D → Option (Sqe D → Ring D)
  get_sqe r = if ltb (length r.queued) r.depth then some (filled r) else none

  abbrev pub submit : Ring D → Ring D
  submit r = record r { queued = []; batches = r.batches ++ r.queued ∷ [] }

  pub init_ring :
      (n : ℕ) (r : Ring D)
      → queue_init n ≡ some r
      → r ≡ record { depth = n; queued = []; batches = [] }
  init_ring n r e = cc

  pub get_full : (r : Ring D) → r.depth ≤ length r.queued → get_sqe r ≡ none
  get_full r h = rw (le→ltb (length r.queued) r.depth h)

  pub get_some : (r : Ring D) → length r.queued < r.depth → get_sqe r ≡ some (filled r)
  get_some r h = rw (lt→ltb (length r.queued) r.depth h)

abbrev pub sim : (D : Type 0) → Liburing D
sim D = record {
  Ring = Ring D;
  depth = λ r. r.depth;
  queued = λ r. r.queued;
  batches = λ r. r.batches;
  queue_init = queue_init;
  get_sqe = get_sqe;
  submit = submit;
  init_depth = λ k r e. ap (λ (s : Ring D). s.depth) (init_ring (2 ^ k) r e);
  init_queued = λ n r e. ap (λ (s : Ring D). s.queued) (init_ring n r e);
  init_batches = λ n r e. ap (λ (s : Ring D). s.batches) (init_ring n r e);
  get_full = get_full;
  get_free = λ r h. (filled r, get_some r h, λ s. refl, λ s. refl, λ s. refl);
  submit_queued = λ r. refl;
  submit_batches = λ r. refl;
  submit_depth = λ r. refl;
}
