-- ===== src/Splice/Delivery/Race.antt =====
-- The links alone keep only the two requests of one chunk in order. Two chunks for one output share
-- its pipe, and another order that respects the links exchanges them.
use independent_study.Base.{ℕ, ◌+◌, ◌≤◌, ◌≡◌, List, [], ◌∷◌, ◌++◌, length, none}
use independent_study.Base.Interleave.{Interleave}
use independent_study.Liburing.{Fd, Sqe}
use independent_study.Kernel.{Kernel, Transfers}
use independent_study.Splice.{Output, fill_pipe, drain_pipe}
use independent_study.Splice.Delivery.{Ends}

-- Both chunks go into the pipe before the second one's drain, and then the first one's, run.
abbrev pub raced : Fd → Output → ℕ → List (Sqe ℕ)
raced source o c =
    fill_pipe source o 0 c ∷ fill_pipe source o c c ∷ drain_pipe o c c ∷ drain_pipe o 0 c ∷ []

module _ (a b : List ℕ) (c : ℕ) (size_a : length a ≡ c) (size_b : length b ≡ c) where
  module _ (k : Kernel) (t : Transfers k) (source : Fd) (o : Output) (p : ℕ) (ends : Ends k t o p)
      (w : k.World) (from_file : t.pipe_of source ≡ none) (room : c + c ≤ t.capacity)
      (whole : t.content source w ≡ a ++ b) (empty : t.held p w ≡ [])
      (no_bytes : t.content o.file w ≡ []) where
    open t use {content, held, splice_in, splice_out}

    abbrev w1 : k.World
    w1 = k.run (fill_pipe source o 0 c).request w

    abbrev w2 : k.World
    w2 = k.run (fill_pipe source o c c).request w1

    abbrev w3 : k.World
    w3 = k.run (drain_pipe o c c).request w2
