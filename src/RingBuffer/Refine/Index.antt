-- ===== src/RingBuffer/Refine/Index.antt =====
-- Indices that go round at the capacity.
use native.Mathlib.Nat.{mod-eq_of_lt, mod-eq-sub-mod}
use native.Mathlib.Decide.{dec_lt}
use independent_study.Base.{ℕ, ◌+◌, ◌-◌, ◌%◌, ◌≤◌, ◌<◌, ◌≡◌, ◌⊎◌, inl, inr, ◌∙◌, arith}

pub wrap_cases :
    (t k c : ℕ)
    → t < c
    → k ≤ c
    → ((t + k < c) × ((t + k) % c ≡ t + k)) ⊎ ((c ≤ t + k) × ((t + k) % c ≡ t + k - c))
wrap_cases t k c ht hk = elim (dec_lt (t + k) c) [
  | yes p ↦ inl (p, mod-eq_of_lt p)
  | no p ↦
      inr
        (omega arith, mod-eq-sub-mod {n = t + k} {m = c} (omega arith) ∙ mod-eq_of_lt (omega arith))
]

pub wrap-injective :
    (t j k c : ℕ) → t < c → j < c → k ≤ c → j < k → (t + j) % c ≡ (t + k) % c → (j ≡ 0) × (k ≡ c)
wrap-injective t j k c ht hj hk lt e = ground (arith, wrap_cases t j c, wrap_cases t k c)
