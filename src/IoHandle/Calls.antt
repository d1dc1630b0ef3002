-- ===== src/IoHandle/Calls.antt =====
-- Sequences of calls on handles, and what they do with one descriptor.
use independent_study.Base.{
  ℕ, ◌+◌, if◌then◌else◌, List, [], ◌∷◌, Option, none, some, Outcome, ok, ◌>>=◌,
}
use independent_study.Base.Sums.{weigh}
use independent_study.Liburing.{Fd, fd_eq}
use independent_study.IoHandle.{
  Name, IoHandle, World, adopt, make_default, move_construct, destroy, set_name, move_assign,
}

-- The calls that make, move and end handles.
pub data Call : Type 0 where
  constructed : Call
  adopted : Fd → Call
  moved destroyed : ℕ → Call
  assigned : ℕ → ℕ → Call
  named : ℕ → Name → Call

module _ (moved_from : Name → Name) where
  abbrev pub step : World → Call → Outcome World
  step w constructed = ok (make_default w)
  step w (adopted fd) = ok (adopt w fd)
  step w (moved j) = move_construct w j
  step w (destroyed i) = destroy w i
  step w (assigned i j) = move_assign moved_from w i j
  step w (named i name) = set_name w i name

  abbrev pub run : World → List Call → Outcome World
  run w [] = ok w
  run w (c ∷ cs) = step w c >>= λ w'. run w' cs

-- How often a descriptor is here.
abbrev pub is_fd : Fd → Fd → ℕ
is_fd d fd = if fd_eq fd d then 1 else 0

abbrev pub slot_weight : Fd → Option IoHandle → ℕ
slot_weight d none = 0
slot_weight d (some o) = is_fd d o.fd

abbrev pub owned : Fd → World → ℕ
owned d w = weigh (slot_weight d) w.objects

abbrev pub closes : Fd → World → ℕ
closes d w = weigh (is_fd d) w.closed

abbrev pub adoptions : Fd → List Call → ℕ
adoptions d [] = 0
adoptions d (adopted fd ∷ cs) = is_fd d fd + adoptions d cs
adoptions d (_ ∷ cs) = adoptions d cs
