-- ===== src/Kernel/Sim.antt =====
-- A kernel that meets `Transfers`, for runs on concrete inputs: the descriptors 100 + 2 n and
-- 101 + 2 n are the ends of pipe n, and all others are of files.
use independent_study.Base.{
  ℕ, ◌-◌, ◌/◌, ◌≡◌, ◌≢◌, refl, ap, Bool-cases, inl, inr, ltb, ◌==◌, ==_iff, if◌then◌else◌, List, [],
  ◌++◌, take, drop, Option, none, some, ℤ, pos, negsuc, pos_part,
}
use independent_study.Base.Slices.{write_at}
use independent_study.Liburing.{Fd, fd_eq, fd_eq_iff, Request, readv, writev, splice, tee}
use independent_study.Kernel.{Kernel, Transfers, padded}

pub record Host : Type 0 where
  pub files : Fd → List ℕ
  pub pipes : ℕ → List ℕ

abbrev pub number_of : Fd → Option ℕ
number_of (pos n) = if ltb n 100 then none else some ((n - 100) / 2)
number_of (negsuc n) = none

abbrev pub put_file : Fd → List ℕ → Host → Host
put_file f bytes w = record w { files = λ g. if fd_eq g f then bytes else w.files g }

abbrev pub put_pipe : ℕ → List ℕ → Host → Host
put_pipe p bytes w = record w { pipes = λ q. if q == p then bytes else w.pipes q }

abbrev file_to_pipe : Fd → ℕ → ℕ → ℕ → Host → Host
file_to_pipe f off p len w = put_pipe p (w.pipes p ++ take len (drop off (w.files f))) w

abbrev pipe_to_file : ℕ → Fd → ℕ → ℕ → Host → Host
pipe_to_file p f off len w =
    put_file f (write_at off (take len (w.pipes p)) (padded off (w.files f)))
      (put_pipe p (drop len (w.pipes p)) w)

abbrev spliced : Option ℕ → Option ℕ → Fd → ℤ → Fd → ℤ → ℕ → Host → Host
spliced none none i off_in o off_out len w = w
spliced none (some p) i off_in o off_out len w = file_to_pipe i (pos_part off_in) p len w
spliced (some p) none i off_in o off_out len w = pipe_to_file p o (pos_part off_out) len w
spliced (some p) (some q) i off_in o off_out len w = w

abbrev teed : Option ℕ → Option ℕ → ℕ → Host → Host
teed none q len w = w
teed (some p) none len w = w
teed (some p) (some q) len w = put_pipe q (w.pipes q ++ take len (w.pipes p)) w

abbrev carried_out : Request → Host → Host
carried_out (readv fd vs off) w = w
carried_out (writev fd vs off) w = w
carried_out (splice i off_in o off_out len) w =
    spliced (number_of i) (number_of o) i off_in o off_out len w
carried_out (tee i o len) w = teed (number_of i) (number_of o) len w

abbrev pub host_kernel : Kernel
host_kernel = record { World = Host; run = carried_out }

pub put_pipe_self : (p : ℕ) (bytes : List ℕ) (w : Host) → (put_pipe p bytes w).pipes p ≡ bytes
put_pipe_self p bytes w = rw ((==_iff p p).1 refl) refl

pub put_pipe_ne :
    (p q : ℕ) (bytes : List ℕ) (w : Host) → q ≢ p → (put_pipe p bytes w).pipes q ≡ w.pipes q
put_pipe_ne p q bytes w ne = elim (Bool-cases (q == p)) [
  | inl e ↦ absurd (ne ((==_iff q p).0 e))
  | inr e ↦ rw e refl
]

pub put_file_self : (f : Fd) (bytes : List ℕ) (w : Host) → (put_file f bytes w).files f ≡ bytes
put_file_self f bytes w = rw ((fd_eq_iff f f).1 refl) refl

pub put_file_ne :
    (f g : Fd) (bytes : List ℕ) (w : Host) → g ≢ f → (put_file f bytes w).files g ≡ w.files g
put_file_ne f g bytes w ne = elim (Bool-cases (fd_eq g f)) [
  | inl e ↦ absurd (ne ((fd_eq_iff g f).0 e))
  | inr e ↦ rw e refl
]

abbrev pub host_transfers : Transfers host_kernel
host_transfers = record {
  pipe_of = number_of;
  capacity = 1048576;
  content = λ f w. w.files f;
  held = λ p w. w.pipes p;
  splice_in = λ f o p off len w e e' fits room.
      rw e (rw e' (put_pipe_self p _ w, λ q ne. put_pipe_ne p q _ w ne, λ g. refl));
  splice_out = λ i f p off len w e e' fits. rw e (
      rw e' (
        put_pipe_self p _ w,
        put_file_self f _ (put_pipe p (drop len (w.pipes p)) w),
        λ q ne. put_pipe_ne p q _ w ne,
        λ g ne. put_file_ne f g _ (put_pipe p (drop len (w.pipes p)) w) ne,
      ));
  tee_copies = λ i o p q len w e e' apart fits room.
      rw e (rw e' (put_pipe_self q _ w, λ r ne. put_pipe_ne q r _ w ne, λ g. refl));
}

-- File 3 holds these bytes, and all others are empty.
abbrev pub host : List ℕ → Host
host content = record { files = λ f. if fd_eq f (pos 3) then content else []; pipes = λ p. [] }

pub files_differ : (a b : ℕ) → a ≢ b → pos a ≢ pos b
files_differ a b ne e = ne (ap pos_part e)
