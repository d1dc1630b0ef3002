-- ===== src/Base/Interleave.antt =====
-- What several queues can give together: each step takes the head of one of them.
use Prim.Native.Nat.{ℕ}
use mathlib.Core.Path.{◌≡◌}
use mathlib.Core.Option.{some}
use mathlib.Core.List.{List, [], ◌∷◌}
use independent_study.Base.Lists.{get_elem?, set, All}

pub data Interleave {A : Type 0} : List (List A) → List A → Type 0 where
  finished : (qs : List (List A)) → All (λ q. q ≡ []) qs → Interleave qs []
  taken :
      (qs : List (List A)) (i : ℕ) (x : A) (rest xs : List A)
      → get_elem? qs i ≡ some (x ∷ rest)
      → Interleave (set qs i rest) xs
      → Interleave qs (x ∷ xs)
