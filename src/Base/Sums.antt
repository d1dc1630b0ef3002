-- ===== src/Base/Sums.antt =====
-- Sums over lists, which do not depend on the order.
use Prim.Native.Nat.{ℕ, zero, suc, ◌+◌, ◌≤◌}
use mathlib.Core.Path.{◌≡◌, refl, ap, ◌∙◌}
use mathlib.Core.Logic.{◌≢◌, ∥∥₁_elim}
use mathlib.Core.Option.{some}
use mathlib.Core.List.{List, [], ◌∷◌, ◌++◌, map, Perm, Permᴰ}
use native.Mathlib.Nat.{ℕ_set}
use native.Mathlib.Omega.{arith}
use independent_study.Base.Tests.{some_inj}
use independent_study.Base.Lists.{length, get_elem?}

module _ {A : Type 0} where
  abbrev pub weigh : (A → ℕ) → List A → ℕ
  weigh w [] = 0
  weigh w (x ∷ xs) = w x + weigh w xs

  pub weigh-append : (w : A → ℕ) (xs ys : List A) → weigh w (xs ++ ys) ≡ weigh w xs + weigh w ys
  weigh-append w [] ys = omega arith
  weigh-append w (x ∷ xs) ys = omega (arith, weigh-append w xs ys)

  weigh-Permᴰ : (w : A → ℕ) {xs ys : List A} → Permᴰ xs ys → weigh w xs ≡ weigh w ys
  weigh-Permᴰ w Permᴰ.nil = refl
  weigh-Permᴰ w (Permᴰ.cons e p) = omega (arith, ap w e, weigh-Permᴰ w p)
  weigh-Permᴰ w (Permᴰ.swap e e') = omega (arith, ap w e, ap w e')
  weigh-Permᴰ w (Permᴰ.trans p q) = weigh-Permᴰ w p ∙ weigh-Permᴰ w q

  pub weigh-Perm : (w : A → ℕ) {xs ys : List A} → Perm xs ys → weigh w xs ≡ weigh w ys
  weigh-Perm w p = ∥∥₁_elim p (ℕ_set _ _) (weigh-Permᴰ w)

  pub one_of_sum :
      (w : A → ℕ) (xs : List A) (i : ℕ) (x : A) → get_elem? xs i ≡ some x → w x ≤ weigh w xs
  one_of_sum w [] i x e = cc
  one_of_sum w (y ∷ xs) zero x e = omega (arith, ap w (some_inj e))
  one_of_sum w (y ∷ xs) (suc i) x e = omega (arith, one_of_sum w xs i x e)

  pub two_of_sum :
      (w : A → ℕ) (xs : List A) (i j : ℕ) (x y : A)
      → get_elem? xs i ≡ some x
      → get_elem? xs j ≡ some y
      → i ≢ j
      → w x + w y ≤ weigh w xs
  two_of_sum w [] i j x y e e' ne = cc
  two_of_sum w (z ∷ xs) zero zero x y e e' ne = absurd (ne refl)
  two_of_sum w (z ∷ xs) zero (suc j) x y e e' ne =
      omega (arith, ap w (some_inj e), one_of_sum w xs j y e')
  two_of_sum w (z ∷ xs) (suc i) zero x y e e' ne =
      omega (arith, ap w (some_inj e'), one_of_sum w xs i x e)
  two_of_sum w (z ∷ xs) (suc i) (suc j) x y e e' ne =
      omega (arith, two_of_sum w xs i j x y e e' (λ s. ne (ap suc s)))

  pub weigh-one : (xs : List A) → weigh (λ _. 1) xs ≡ length xs
  weigh-one [] = refl
  weigh-one (x ∷ xs) = omega (arith, weigh-one xs)

pub weigh-map :
    {A B : Type 0} (w : B → ℕ) (f : A → B) (xs : List A)
    → weigh w (map f xs) ≡ weigh (λ a. w (f a)) xs
weigh-map w f [] = refl
weigh-map w f (x ∷ xs) = ap (λ n. w (f x) + n) (weigh-map w f xs)
