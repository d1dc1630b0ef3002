-- ===== src/Kernel/Copies.antt =====
-- A file that is copied part by part, each part behind the one before.
use independent_study.Base.{
  ℕ, ◌+◌, ◌-◌, ◌≤◌, ◌≡◌, ap, sym, ◌∙◌, List, [], ◌++◌, append-nil, length, take, drop, replicate,
  length-take, length-drop, arith,
}
use independent_study.Base.Slices.{take_all, drop_all, write_at, write_at_next}
use independent_study.Kernel.{padded}

pub padded_none : (off : ℕ) (file : List ℕ) → off ≤ length file → padded off file ≡ file
padded_none off file h =
    let nothing : off - length file ≡ 0 = omega arith in
    ap (λ n. file ++ replicate n 0) nothing ∙ append-nil file

pub copied_next :
    (off n : ℕ) (source : List ℕ)
    → off + n ≤ length source
    → write_at off (take n (drop off source)) (padded off (take off source)) ≡ take (off + n) source
copied_next off n source h =
    let reached : off ≤ length (take off source) = omega (arith, length-take off source) in
    let behind : (m : ℕ) → drop {A = ℕ} m [] ≡ [] = λ m. drop_all m [] (omega arith) in
    let open_end : (m : ℕ) → take m source ++ drop {A = ℕ} m [] ≡ take m source =
      λ m. ap (λ ys. take m source ++ ys) (behind m) ∙ append-nil (take m source) in
    ap (write_at off (take n (drop off source)))
      (padded_none off (take off source) reached ∙ sym (open_end off))
    ∙ write_at_next off n source [] h
    ∙ open_end (off + n)

-- What a whole transfer out of a pipe takes and leaves, where the pipe holds no more.
pub take_part :
    (off n : ℕ) (source : List ℕ)
    → off + n ≤ length source
    → (length (take n (drop off source)) ≡ n)
      × (take n (take n (drop off source)) ≡ take n (drop off source))
      × (drop n (take n (drop off source)) ≡ [])
take_part off n source h =
    let part = take n (drop off source) in
    let size : length part ≡ n =
      omega (arith, length-take n (drop off source), length-drop off source) in
    (size, take_all n part (omega (arith, size)), drop_all n part (omega (arith, size)))
