-- ===== src/UringVec/Freed.antt =====
-- What the reaping loop counts and frees, against what was asked for and allocated.
use independent_study.Base.{
  ℕ, ◌+◌, ◌-◌, ◌*◌, ◌/◌, ◌%◌, ◌≤◌, ◌<◌, ◌≡◌, ◌==◌, if◌then◌else◌, refl, ap, ◌∙◌, List, [], ◌∷◌, map,
  Option, Option-cases, inl, inr, none, some, ℤ, pos, negsuc, is_negative, false, word_mod,
  add_size, arith, All,
}
use independent_study.Base.Sums.{weigh, weigh-append}
use independent_study.Liburing.{Sqe, Cqe}
use independent_study.UringVec.{Data, block_sz, window_size, expected_completions}
use independent_study.UringVec.Context.{Allocates, data_pointers, pointers}
use independent_study.UringVec.Reap.{carrying, written_by, bytes_written, owned_blocks, freed}
use independent_study.UringVec.Plan.{data_bytes, carries, windows_of}

-- How many of the blocks stand at an address.
abbrev pub count_at : ℕ → List ℕ → ℕ
count_at q = weigh (λ p. if p == q then 1 else 0)

abbrev pub contexts_at : ℕ → List Data → ℕ
contexts_at q = weigh (λ d. count_at q (data_pointers d))

abbrev pub data_of : List (Cqe Data) → List Data
data_of = map (λ (c : Cqe Data). c.user_data)

abbrev pub data_asked : List (Sqe Data) → List Data
data_asked = map (λ (s : Sqe Data). s.user_data)

pub carrying_lem : (cs : List (Cqe Data)) → carrying cs ≡ weigh carries (data_of cs)
unfolding carrying
carrying_lem [] = refl
carrying_lem (c ∷ cs) = elim (Option-cases c.user_data) [
  | inl e ↦ ground (arith, e, carrying_lem cs)
  | inr (x, e) ↦ ground (arith, e, carrying_lem cs)
]

written_good : (d : Data) (res : ℤ) → is_negative res ≡ false → written_by d res ≡ data_bytes d
written_good none res e = refl
written_good (some ctx) (pos n) e = refl
written_good (some ctx) (negsuc n) e = cc

pub bytes_written_good :
    (cs : List (Cqe Data))
    → All (λ (c : Cqe Data). is_negative c.res ≡ false) cs
    → bytes_written cs ≡ weigh data_bytes (data_of cs)
bytes_written_good [] a = refl
bytes_written_good (c ∷ cs) (good, a) =
    omega (arith, written_good c.user_data c.res good, bytes_written_good cs a)

pub count_at-owned_blocks :
    (q : ℕ) (cs : List (Cqe Data)) → count_at q (owned_blocks cs) ≡ contexts_at q (data_of cs)
count_at-owned_blocks q [] = refl
count_at-owned_blocks q (c ∷ cs) =
    weigh-append (λ p. if p == q then 1 else 0) (data_pointers c.user_data) (owned_blocks cs)
    ∙ ap (λ n. count_at q (data_pointers c.user_data) + n) (count_at-owned_blocks q cs)

pub count_at-pointers :
    (q : ℕ) (plan : List (Sqe Data))
    → count_at q (pointers plan) ≡ weigh (λ d. count_at q (data_pointers d)) (data_asked plan)
count_at-pointers q [] = refl
count_at-pointers q (s ∷ ss) =
    weigh-append (λ p. if p == q then 1 else 0) (data_pointers s.user_data) (pointers ss)
    ∙ ap (λ n. count_at q (data_pointers s.user_data) + n) (count_at-pointers q ss)

pub expected_lem :
    (sz n : ℕ)
    → sz + window_size ≤ word_mod
    → n * windows_of sz < word_mod
    → expected_completions (pos sz) n ≡ n * windows_of sz
expected_lem sz n fits few =
    let whole : sz % word_mod ≡ sz = omega arith in
    let sum : (sz + (window_size - 1)) % word_mod ≡ sz + (window_size - 1) = omega arith in
    ap (λ k. (add_size k (window_size - 1) / window_size) * n % word_mod) whole
    ∙ ap (λ k. (k / window_size) * n % word_mod) sum
    ∙ omega arith

module _ {Heap : Type 0} (posix_memalign : ℕ → ℕ → Heap → Option (ℕ × Heap)) (held : ℕ → Heap → ℕ)
    (alloc_holds : (h h' : Heap) (p q : ℕ)
      → posix_memalign 4096 block_sz h ≡ some (p, h')
      → held q h' ≡ held q h + (if p == q then 1 else 0)) where
  pub Allocates-held :
      (ps : List ℕ) (h h' : Heap) (q : ℕ)
      → Allocates posix_memalign ps h h'
      → held q h' ≡ held q h + count_at q ps
  Allocates-held [] h h' q e = omega (arith, ap (held q) e)
  Allocates-held (p ∷ ps) h h' q (h1, e, rest) =
      omega (arith, alloc_holds h h1 p q e, Allocates-held ps h1 h' q rest)

module _ {Heap : Type 0} (free : ℕ → Heap → Heap) (held : ℕ → Heap → ℕ)
    (free_releases : (p : ℕ) (h : Heap) (q : ℕ)
      → 1 ≤ held p h
      → held q (free p h) + (if p == q then 1 else 0) ≡ held q h) where
  pub freed-held :
      (ps : List ℕ) (h : Heap)
      → ((q : ℕ) → count_at q ps ≤ held q h)
      → (q : ℕ) → held q (freed free ps h) + count_at q ps ≡ held q h
  freed-held [] h owned q = omega arith
  freed-held (p ∷ ps) h owned q =
      let mine : 1 ≤ held p h = ground (arith, owned p) in
      let rest =
        freed-held ps (free p h) (λ r. omega (arith, owned r, free_releases p h r mine)) q in
      omega (arith, rest, free_releases p h q mine)
