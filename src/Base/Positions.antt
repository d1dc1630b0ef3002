-- ===== src/Base/Positions.antt =====
-- The items of a list by their positions: of parts of it, and after a write in it.
use Prim.Native.Nat.{ℕ, zero, suc, ◌+◌, ◌-◌, ◌≤◌, ◌<◌}
use mathlib.Core.Path.{◌≡◌, refl, ap, sym, ◌∙◌}
use mathlib.Core.List.{List, [], ◌∷◌, ◌++◌}
use native.Mathlib.Omega.{arith}
use independent_study.Base.Tests.{some_inj}
use independent_study.Base.Lists.{
  length, take, drop, get_elem?, get_elem?-lt, get_elem?-some_lt, get_elem?-append_left,
  length-append, length-take, length-drop,
}
use independent_study.Base.Slices.{write_at}

module _ {ℓ} {A : Type ℓ} where
  get_elem?-append_right :
      (xs ys : List A) (x : ℕ)
      → length xs ≤ x
      → get_elem? (xs ++ ys) x ≡ get_elem? ys (x - length xs)
  get_elem?-append_right [] ys x h = ap (get_elem? ys) (omega arith)
  get_elem?-append_right (y ∷ xs) ys zero h = absurd (omega arith)
  get_elem?-append_right (y ∷ xs) ys (suc x) h =
      let same : x - length xs ≡ suc x - suc (length xs) = omega arith in
      get_elem?-append_right xs ys x (omega arith) ∙ ap (get_elem? ys) same

  get_elem?-take : (n : ℕ) (xs : List A) (x : ℕ) → x < n → get_elem? (take n xs) x ≡ get_elem? xs x
  get_elem?-take zero xs x h = absurd (omega arith)
  get_elem?-take (suc n) [] x h = refl
  get_elem?-take (suc n) (y ∷ xs) zero h = refl
  get_elem?-take (suc n) (y ∷ xs) (suc x) h = get_elem?-take n xs x (omega arith)

  get_elem?-drop : (n : ℕ) (xs : List A) (x : ℕ) → get_elem? (drop n xs) x ≡ get_elem? xs (n + x)
  get_elem?-drop zero xs x = ap (get_elem? xs) (omega arith)
  get_elem?-drop (suc n) [] x = refl
  get_elem?-drop (suc n) (y ∷ xs) x =
      let shift : suc n + x ≡ suc (n + x) = omega arith in
      get_elem?-drop n xs x ∙ sym (ap (get_elem? (y ∷ xs)) shift)

  -- The items of a part.
  pub get_elem?-part :
      (off n : ℕ) (xs : List A) (x : ℕ)
      → x < n
      → get_elem? (take n (drop off xs)) x ≡ get_elem? xs (off + x)
  get_elem?-part off n xs x h = get_elem?-take n (drop off xs) x h ∙ get_elem?-drop off xs x

  -- Behind the end there are no items, so that items that are there are before it.
  pub get_elem?-end :
      (xs ys : List A) (x : ℕ) → x < length ys → get_elem? xs x ≡ get_elem? ys x → x < length xs
  get_elem?-end xs ys x h e =
      let (a, here) = get_elem?-lt ys x h in get_elem?-some_lt xs x a (e ∙ here)

  pub same_items :
      (xs ys : List A)
      → length xs ≤ length ys
      → ((x : ℕ) → x < length ys → get_elem? xs x ≡ get_elem? ys x)
      → xs ≡ ys
  same_items [] [] h e = refl
  same_items [] (y ∷ ys) h e = cc (e 0 (omega arith))
  same_items (x ∷ xs) [] h e = absurd (omega arith)
  same_items (x ∷ xs) (y ∷ ys) h e =
      let rest = same_items xs ys (omega arith) (λ i lt. e (suc i) (omega arith)) in
      let head : x ≡ y = some_inj (e 0 (omega arith)) in
      ap (λ z. z ∷ xs) head ∙ ap (λ zs. y ∷ zs) rest

  module _ (off : ℕ) (bytes file : List A) (reaches : off ≤ length file) where
    kept : length (take off file) ≡ off
    kept = omega (arith, length-take off file)

    -- A write that does not begin behind the end leaves the items on both sides of it.
    pub write_at_before :
        (x : ℕ) → x < off → get_elem? (write_at off bytes file) x ≡ get_elem? file x
    write_at_before x h =
        get_elem?-append_left (take off file) _ x (omega (arith, kept))
        ∙ get_elem?-take off file x h

    pub write_at_inside :
        (x : ℕ)
        → x < length bytes
        → get_elem? (write_at off bytes file) (off + x) ≡ get_elem? bytes x
    write_at_inside x h =
        let here : off + x - length (take off file) ≡ x = omega (arith, kept) in
        get_elem?-append_right (take off file) _ (off + x) (omega (arith, kept))
        ∙ ap (get_elem? (bytes ++ drop (off + length bytes) file)) here
        ∙ get_elem?-append_left bytes _ x h

    pub write_at_behind :
        (x : ℕ) → off + length bytes ≤ x → get_elem? (write_at off bytes file) x ≡ get_elem? file x
    write_at_behind x h =
        let there : off + length bytes + (x - length (take off file) - length bytes) ≡ x =
          omega (arith, kept) in
        get_elem?-append_right (take off file) _ x (omega (arith, kept))
        ∙ get_elem?-append_right bytes _ (x - length (take off file)) (omega (arith, kept))
        ∙ get_elem?-drop (off + length bytes) file _
        ∙ ap (get_elem? file) there

    pub length-write_at :
        (n : ℕ) → length file ≤ n → off + length bytes ≤ n → length (write_at off bytes file) ≤ n
    length-write_at n h h' = omega (
      arith,
      length-append (take off file) (bytes ++ drop (off + length bytes) file),
      length-append bytes (drop (off + length bytes) file),
      length-drop (off + length bytes) file,
      kept,
    )
