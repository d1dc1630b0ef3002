-- ===== src/Splice/Reap.antt =====
-- The reaping loop on completions that all arrive.
use independent_study.Base.{
  ℕ, zero, suc, ◌≤◌, ◌≡◌, refl, List, [], ◌∷◌, map, length, take, drop, ok, arith,
}
use independent_study.Liburing.{Cqe, got}
use independent_study.Splice.{count_cqe, reap}

-- The verified bytes behind the completions `cs`, starting from `v`.
unfoldable pub tally : ℕ → List (Cqe ℕ) → ℕ
tally v [] = v
tally v (c ∷ cs) = tally (count_cqe v c) cs

pub tally-take-drop :
    (e v : ℕ) (cs : List (Cqe ℕ)) → tally (tally v (take e cs)) (drop e cs) ≡ tally v cs
unfolding tally
tally-take-drop zero v cs = refl
tally-take-drop (suc e) v [] = refl
tally-take-drop (suc e) v (c ∷ cs) = tally-take-drop e (count_cqe v c) cs

pub reap_got :
    (e v : ℕ) (cs : List (Cqe ℕ))
    → e ≤ length cs
    → reap e v (map got cs) ≡ ok (0, tally v (take e cs), map got (drop e cs))
unfolding reap tally
reap_got zero v cs h = refl
reap_got (suc e) v [] h = absurd (omega arith)
reap_got (suc e) v (c ∷ cs) h = reap_got e (count_cqe v c) cs (omega arith)
