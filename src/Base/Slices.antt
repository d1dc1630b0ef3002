-- ===== src/Base/Slices.antt =====
-- Parts of a list: what a write in the middle leaves.
use Prim.Native.Nat.{ℕ, zero, suc, ◌+◌, ◌≤◌}
use mathlib.Core.Path.{◌≡◌, refl, ap, ap₂, sym, ◌∙◌}
use mathlib.Core.List.{List, [], ◌∷◌, ◌++◌, append_assoc}
use native.Mathlib.Omega.{arith}
use independent_study.Base.Lists.{length, take, drop, length-take, length-drop}

module _ {ℓ} {A : Type ℓ} where
  take-nil : (n : ℕ) → take {A = A} n [] ≡ []
  take-nil zero = refl
  take-nil (suc n) = refl

  drop-nil : (n : ℕ) → drop {A = A} n [] ≡ []
  drop-nil zero = refl
  drop-nil (suc n) = refl

  pub take_all : (n : ℕ) (xs : List A) → length xs ≤ n → take n xs ≡ xs
  take_all n [] h = take-nil n
  take_all zero (x ∷ xs) h = absurd (omega arith)
  take_all (suc n) (x ∷ xs) h = ap (λ ys. x ∷ ys) (take_all n xs (omega arith))

  pub drop_all : (n : ℕ) (xs : List A) → length xs ≤ n → drop n xs ≡ []
  drop_all n [] h = drop-nil n
  drop_all zero (x ∷ xs) h = absurd (omega arith)
  drop_all (suc n) (x ∷ xs) h = drop_all n xs (omega arith)

  pub take-add : (a b : ℕ) (xs : List A) → take (a + b) xs ≡ take a xs ++ take b (drop a xs)
  take-add zero b xs = ap (λ n. take n xs) (omega arith)
  take-add (suc a) b [] = take-nil (suc a + b) ∙ sym (take-nil b)
  take-add (suc a) b (x ∷ xs) =
      let shift : suc a + b ≡ suc (a + b) = omega arith in
      ap (λ n. take n (x ∷ xs)) shift ∙ ap (λ ys. x ∷ ys) (take-add a b xs)

  pub drop-add : (a b : ℕ) (xs : List A) → drop (a + b) xs ≡ drop b (drop a xs)
  drop-add zero b xs = ap (λ n. drop n xs) (omega arith)
  drop-add (suc a) b [] = drop-nil (suc a + b) ∙ sym (drop-nil b)
  drop-add (suc a) b (x ∷ xs) =
      let shift : suc a + b ≡ suc (a + b) = omega arith in
      ap (λ n. drop n (x ∷ xs)) shift ∙ drop-add a b xs

  pub append-take-drop : (n : ℕ) (xs : List A) → take n xs ++ drop n xs ≡ xs
  append-take-drop zero xs = refl
  append-take-drop (suc n) [] = refl
  append-take-drop (suc n) (x ∷ xs) = ap (λ ys. x ∷ ys) (append-take-drop n xs)

  pub take-append_length : (xs ys : List A) → take (length xs) (xs ++ ys) ≡ xs
  take-append_length [] ys = refl
  take-append_length (x ∷ xs) ys = ap (λ zs. x ∷ zs) (take-append_length xs ys)

  pub drop-append_length : (xs ys : List A) → drop (length xs) (xs ++ ys) ≡ ys
  drop-append_length [] ys = refl
  drop-append_length (x ∷ xs) ys = drop-append_length xs ys

  -- The list with `bytes` in place of what stood from `off` on.
  abbrev pub write_at : ℕ → List A → List A → List A
  write_at off bytes file = take off file ++ (bytes ++ drop (off + length bytes) file)

  -- A copy from `source` that has come to `off` comes to `off + n` by writing the next n items.
  pub write_at_next :
      (off n : ℕ) (source old : List A)
      → off + n ≤ length source
      → write_at off (take n (drop off source)) (take off source ++ drop off old)
        ≡ take (off + n) source ++ drop (off + n) old
  write_at_next off n source old h =
      let done : length (take off source) ≡ off = omega (arith, length-take off source) in
      let part = take n (drop off source) in
      let size : length part ≡ n =
        omega (arith, length-take n (drop off source), length-drop off source) in
      let kept = take off source ++ drop off old in
      let first : take off kept ≡ take off source =
        ap (λ k. take k kept) (sym done) ∙ take-append_length (take off source) (drop off old) in
      let last : drop (off + length part) kept ≡ drop (off + n) old =
        drop-add off (length part) kept
        ∙ ap (drop (length part))
            (ap (λ k. drop k kept) (sym done) ∙ drop-append_length (take off source) (drop off old))
        ∙ ap (λ k. drop k (drop off old)) size
        ∙ sym (drop-add off n old) in
      ap₂ (λ xs ys. xs ++ (part ++ ys)) first last
      ∙ sym (append_assoc (take off source) part (drop (off + n) old))
      ∙ ap (λ xs. xs ++ drop (off + n) old) (sym (take-add off n source))
