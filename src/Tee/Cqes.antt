-- ===== src/Tee/Cqes.antt =====
-- source/Network/broadcastTee.hpp: `process_cqes`. The completions are those in the completion
-- queue; the result is the returned number, and by how many entries the queue's head advances.
use independent_study.Base.{
  ℕ, suc, ◌+◌, ◌≡◌, refl, Bool, false, ◌||◌, ◌==◌, if◌then◌else◌, List, [], ◌∷◌, length, ℤ, pos,
  negsuc, is_negative, All, arith,
}
use independent_study.Liburing.{Cqe}

-- ECANCELED and EAGAIN
abbrev pub ecanceled : ℕ
ecanceled = 125

abbrev pub eagain : ℕ
eagain = 11

abbrev pub is_errno : ℕ → ℤ → Bool
is_errno e (pos n) = false
is_errno e (negsuc n) = suc n == e

-- `cqe->res == -ECANCELED || cqe->res == -EAGAIN`
abbrev pub is_skipped : ℤ → Bool
is_skipped res = is_errno ecanceled res || is_errno eagain res

-- The loop from `completed` on. The second test for an error cannot hold, and the fields that are
-- taken out of the user data are only printed behind it. `total_data` is never added to.
unfoldable pub count_completed : ℕ → List (Cqe ℕ) → ℕ × ℕ
count_completed completed [] = (0, completed)
count_completed completed (c ∷ cs) =
    let next = count_completed completed cs in
    let rest = count_completed (completed + 1) cs in
    if is_skipped c.res then next else if is_negative c.res then (0, 0) else rest

unfoldable pub process_cqes : List (Cqe ℕ) → ℕ × ℕ
unfolding count_completed
process_cqes cs = count_completed 0 cs

-- How many of the completions the loop passes over.
pub skipped : List (Cqe ℕ) → ℕ
skipped [] = 0
skipped (c ∷ cs) = (if is_skipped c.res then 1 else 0) + skipped cs

abbrev pub IsPassable : Cqe ℕ → Type 0
IsPassable c = (is_skipped c.res ≡ false) → is_negative c.res ≡ false

count_completed_passable :
    (completed : ℕ) (cs : List (Cqe ℕ))
    → All IsPassable cs
    → ((count_completed completed cs).0 ≡ 0)
      × ((count_completed completed cs).1 + skipped cs ≡ completed + length cs)
unfolding count_completed skipped
count_completed_passable completed [] h = (refl, omega arith)
count_completed_passable completed (c ∷ cs) h = ground (
  arith,
  h.0,
  count_completed_passable completed cs h.1,
  count_completed_passable (completed + 1) cs h.1,
)

-- Where no completion is an error but the two that are passed over, `process_cqes` returns 0 and
-- advances the queue by all entries less the ones that it passed over: those stay behind.
pub process_cqes_behind :
    (cs : List (Cqe ℕ))
    → All IsPassable cs
    → ((process_cqes cs).0 ≡ 0) × ((process_cqes cs).1 + skipped cs ≡ length cs)
unfolding process_cqes
process_cqes_behind cs h = let q = count_completed_passable 0 cs h in (q.0, omega (arith, q.1))
