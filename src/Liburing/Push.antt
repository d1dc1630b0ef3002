-- ===== src/Liburing/Push.antt =====
-- How source/Network/broadcastTee.hpp and broadcastSplice.hpp fill an entry: they do not test the
-- pointer that `io_uring_get_sqe` returns. So a push either succeeds or writes through a null
-- pointer.
use native.Mathlib.Decide.{dec_lt}
use independent_study.Base.{
  ℕ, suc, ◌+◌, ◌≤◌, ◌<◌, ◌≡◌, [], ◌∷◌, length, none, some, Outcome, ok, fail, undefined, ◌>>=◌,
  arith,
}
use independent_study.Liburing.{Sqe, Liburing}
use independent_study.Liburing.Queue.{Queued, length-Queued, get_room}

module _ (u : Liburing ℕ) where
  open u use {Ring, depth, queued, get_sqe, get_full}

  -- `sqe = io_uring_get_sqe(&ring)` and the writes to `*sqe`, with no test for a null pointer.
  unfoldable pub push : Ring → Sqe ℕ → Outcome Ring
  push r s = elim (get_sqe r) [ none ↦ fail undefined | some fill ↦ ok (fill s) ]

  pub record Pushed (r : Ring) (s : Sqe ℕ) : Type 0 where
    pub ring : Ring
    pub result : push r s ≡ ok ring
    pub entry : Queued u r ring (s ∷ [])

  pub push_room : (r : Ring) (s : Sqe ℕ) → length (queued r) < depth r → Pushed r s
  unfolding push
  push_room r s h =
      let (fill, e, q) = get_room u r h in
      record { ring = fill s; result = rw (e, push); entry = q s }

  pub push_full : (r : Ring) (s : Sqe ℕ) → depth r ≤ length (queued r) → push r s ≡ fail undefined
  unfolding push
  push_full r s h = rw (get_full r h, push)

  -- The number of free entries behind a push.
  pub Pushed-room :
      (r : Ring) (s : Sqe ℕ) (p : Pushed r s) (n : ℕ)
      → length (queued r) + (1 + n) ≤ depth r
      → length (queued p.ring) + n ≤ depth p.ring
  Pushed-room r s p n h =
      omega (arith, length-Queued u r p.ring (s ∷ []) p.entry, p.entry.same_depth)

  -- A push either meets a full queue or leaves one entry less for what follows.
  pub push_or_null :
      {B : Type 0} (r : Ring) (s : Sqe ℕ) (rest : Ring → Outcome B) (n : ℕ)
      → depth r ≤ length (queued r) + suc n
      → ((t : Ring) → depth t ≤ length (queued t) + n → rest t ≡ fail undefined)
      → (push r s >>= rest) ≡ fail undefined
  push_or_null r s rest n h onward = elim (dec_lt (length (queued r)) (depth r)) [
    | no full ↦ rw (push_full r s (omega arith))
    | yes free ↦
        let p = push_room r s free in
        rw p.result (
          onward p.ring
            (omega (arith, length-Queued u r p.ring (s ∷ []) p.entry, p.entry.same_depth)))
  ]
