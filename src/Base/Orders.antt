-- ===== src/Base/Orders.antt =====
-- What holds of every item of a list does so in any order of it; and the numbers below a bound.
use Prim.Native.Nat.{ℕ, zero, suc, ◌+◌, ◌-◌, ◌<◌, min}
use mathlib.Core.Path.{◌≡◌, refl, ap₂, sym, subst}
use mathlib.Core.Logic.{∥∥₁_elim, inl, inr}
use mathlib.Core.List.{List, [], ◌∷◌, Perm, Permᴰ}
use native.Mathlib.Omega.{arith}
use mathlib.Core.Option.{some}
use independent_study.Base.Lists.{All, get_elem?}
use independent_study.Base.Sums.{weigh}
use independent_study.Base.Tests.{ltb, if◌then◌else◌, some_inj, ◌==◌, ==_iff, ==_ne, Bool-cases}

module _ {A : Type 0} (P : A → Type 0) where
  All-Permᴰ : {xs ys : List A} → Permᴰ xs ys → All P xs → All P ys
  All-Permᴰ Permᴰ.nil h = h
  All-Permᴰ (Permᴰ.cons e p) h = (subst P e h.0, All-Permᴰ p h.1)
  All-Permᴰ (Permᴰ.swap e e') h = (subst P e' h.1.0, (subst P e h.0, h.1.1))
  All-Permᴰ (Permᴰ.trans p q) h = All-Permᴰ q (All-Permᴰ p h)

  module _ (prop : (a : A) → IsProp (P a)) where
    All-prop : (xs : List A) → IsProp (All P xs)
    All-prop [] p q = refl
    All-prop (x ∷ xs) p q = ap₂ (λ a b. (a, b)) (prop x p.0 q.0) (All-prop xs p.1 q.1)

    pub All-Perm : {xs ys : List A} → Perm xs ys → All P xs → All P ys
    All-Perm {ys} p h = ∥∥₁_elim p (All-prop ys) (λ d. All-Permᴰ d h)

pub All-map :
    {A : Type 0} (P Q : A → Type 0) (xs : List A) → ((a : A) → P a → Q a) → All P xs → All Q xs
All-map P Q [] f h = tt
All-map P Q (x ∷ xs) f h = (f x h.0, All-map P Q xs f h.1)

pub All-get_elem? :
    {A : Type 0} (P : A → Type 0) (xs : List A) (i : ℕ) (a : A)
    → All P xs
    → get_elem? xs i ≡ some a
    → P a
All-get_elem? P [] i a all e = cc
All-get_elem? P (x ∷ xs) zero a all e = subst P (some_inj e) all.0
All-get_elem? P (x ∷ xs) (suc i) a all e = All-get_elem? P xs i a all.1 e

pub All-each :
    {A : Type 0} (P : A → Type 0) (xs : List A)
    → ((i : ℕ) (x : A) → get_elem? xs i ≡ some x → P x)
    → All P xs
All-each P [] h = tt
All-each P (x ∷ xs) h = (h 0 x refl, All-each P xs (λ i y e. h (suc i) y e))

-- The numbers below n.
abbrev pub below : ℕ → List ℕ
below zero = []
below (suc n) = n ∷ below n

pub All-below : (P : ℕ → Type 0) (n : ℕ) → ((i : ℕ) → i < n → P i) → All P (below n)
All-below P zero f = tt
All-below P (suc n) f = (f n (omega arith), All-below P n (λ i h. f i (omega arith)))

pub below-All : (P : ℕ → Type 0) (n i : ℕ) → All P (below n) → i < n → P i
below-All P zero i all h = absurd (omega arith)
below-All P (suc n) i all h = elim (Bool-cases (i == n)) [
  | inl e ↦ subst P (sym ((==_iff i n).0 e)) all.0
  | inr e ↦ let ne = ==_ne i n e in below-All P n i all.1 (ground (arith, ne))
]

-- How many of them lie below a bound, shifted.
pub weigh-below :
    (n k bound : ℕ) → weigh (λ i. if ltb (i + k) bound then 1 else 0) (below n) ≡ min n (bound - k)
weigh-below zero k bound = omega arith
weigh-below (suc n) k bound = ground (arith, weigh-below n k bound)
