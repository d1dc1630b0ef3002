-- ===== src/Main/Tests/Sim.antt =====
-- A system for runs on concrete inputs: a table of the open descriptors and of the named pipes.
use independent_study.Base.{
  ℕ, suc, ◌+◌, ◌-◌, ◌≤◌, ◌≡◌, ◌↔◌, ◌⊎◌, ◌∙◌, ◌&&◌, Bool, true, false, Bool-cases, ==_iff, inl, inr,
  ap₂, refl, ap, sym, some_inj, ◌==◌, if◌then◌else◌, [], ◌∷◌, none, some, ℤ, pos, negsuc, arith,
}
use independent_study.Liburing.{Fd, fd_eq, fd_eq_iff}
use independent_study.IoHandle.{Name}
use independent_study.FileIo.Sim.{count_down, count_down_lem}
use independent_study.Main.{
  Size, single, dual, multi, Dir, FileName, argument, directory, output, fifo, System,
}
use independent_study.Main.Laws.{gain, Descriptors}
use independent_study.Main.Fifos.{Removing}

-- Every call succeeds, and a new descriptor has the next number.
pub record Table : Type 0 where
  pub next : ℕ
  pub live : ℕ → ℕ
  -- the named pipes that are there
  pub made : Dir → ℕ → Bool

abbrev given : Table → Fd × Table
given w = (
  pos w.next,
  record w { next = suc w.next; live = λ q. w.live q + (if w.next == q then 1 else 0) },
)

abbrev closed : Fd → Table → Table
closed (pos d) w = record w { live = count_down w.live d }
closed (negsuc n) w = w

abbrev size_eq : Size → Size → Bool
size_eq single single = true
size_eq dual dual = true
size_eq multi multi = true
size_eq single dual = false
size_eq single multi = false
size_eq dual single = false
size_eq dual multi = false
size_eq multi single = false
size_eq multi dual = false

size_eq_lem : (a b : Size) → (size_eq a b ≡ true) ↔ (a ≡ b)
size_eq_lem single single = (λ e. refl, λ e. refl)
size_eq_lem dual dual = (λ e. refl, λ e. refl)
size_eq_lem multi multi = (λ e. refl, λ e. refl)
size_eq_lem single dual = (λ e. cc, λ e. cc)
size_eq_lem single multi = (λ e. cc, λ e. cc)
size_eq_lem dual single = (λ e. cc, λ e. cc)
size_eq_lem dual multi = (λ e. cc, λ e. cc)
size_eq_lem multi single = (λ e. cc, λ e. cc)
size_eq_lem multi dual = (λ e. cc, λ e. cc)

-- Whether two pipes are the same.
abbrev same_fifo : Dir → ℕ → Dir → ℕ → Bool
same_fifo d i d' j = fd_eq d.mode d'.mode && (size_eq d.size d'.size && (i == j))

both_true : (a b : Bool) → (a && b) ≡ true → (a ≡ true) × (b ≡ true)
both_true true b e = (refl, e)
both_true false b e = cc

same_fifo_lem : (d d' : Dir) (i j : ℕ) → same_fifo d i d' j ≡ true → fifo d' j ≡ fifo d i
same_fifo_lem d d' i j e =
    let (modes, rest) = both_true (fd_eq d.mode d'.mode) _ e in
    let (sizes, places) = both_true (size_eq d.size d'.size) (i == j) rest in
    let same : d' ≡ d =
      ap₂ (λ m s. record { mode = m; size = s }) (sym ((fd_eq_iff d.mode d'.mode).0 modes))
        (sym ((size_eq_lem d.size d'.size).0 sizes)) in
    ap₂ fifo same (sym ((==_iff i j).0 places))

pub same_fifo_self : (d : Dir) (i : ℕ) → same_fifo d i d i ≡ true
same_fifo_self d i =
    rw ((fd_eq_iff d.mode d.mode).1 refl, (size_eq_lem d.size d.size).1 refl, (==_iff i i).1 refl)
      refl

abbrev put_fifo : Bool → FileName → Table → Table
put_fifo there (fifo d i) w = record w {
  made = λ d' j. if same_fifo d i d' j then there else w.made d' j;
}
put_fifo there (argument name) w = w
put_fifo there (directory d) w = w
put_fifo there (output d i ext) w = w

-- A number is given by its first digit.
abbrev first_digit : Name → ℤ
first_digit [] = pos 0
first_digit (c ∷ cs) = pos (c - 48)

abbrev pub table_system : System
table_system = record {
  World = Table;
  open_file = λ name flags w. given w;
  dup = λ fd w. given w;
  close = closed;
  set_pipe_size = λ fd bytes w. w;
  mkfifo = λ name w. (none, put_fifo true name w);
  unlink = λ name w. put_fifo false name w;
  create_directories = λ name w. some w;
  atoi = first_digit;
  extension = λ name. [];
}

pub put_fifo_live :
    (there : Bool) (name : FileName) (w : Table) → (put_fifo there name w).live ≡ w.live
put_fifo_live there (fifo d i) w = refl
put_fifo_live there (argument name) w = refl
put_fifo_live there (directory d) w = refl
put_fifo_live there (output d i ext) w = refl

pub closed_holds :
    (fd : Fd) (w : Table)
    → ((q : ℕ) → gain q fd ≤ w.live q)
    → (q : ℕ) → (closed fd w).live q + gain q fd ≡ w.live q
closed_holds (pos d) w owned q = count_down_lem w.live d q (ground (arith, owned d))
closed_holds (negsuc n) w owned q = omega arith

abbrev pub table_descriptors : Descriptors table_system
table_descriptors = record {
  held = λ q w. w.live q;
  open_holds = λ name flags w q. refl;
  dup_holds = λ fd w q. refl;
  close_holds = closed_holds;
  set_pipe_size_holds = λ fd bytes w q. refl;
  mkfifo_holds = λ name w q. ap (λ f. f q) (put_fifo_live true name w);
  unlink_holds = λ name w q. ap (λ f. f q) (put_fifo_live false name w);
  create_holds = λ name w w' q e. ap (λ (v : Table). v.live q) (some_inj (sym e));
}

abbrev IsAbsent : FileName → Table → Type 0
IsAbsent (fifo d i) w = w.made d i ≡ false
IsAbsent (argument name) w = Unit
IsAbsent (directory d) w = Unit
IsAbsent (output d i ext) w = Unit

pub closed_keeps :
    (d : Dir) (i : ℕ) (fd : Fd) (w : Table)
    → IsAbsent (fifo d i) w
    → IsAbsent (fifo d i) (closed fd w)
closed_keeps d i (pos n) w h = h
closed_keeps d i (negsuc n) w h = h

pub fifo_made :
    (d : Dir) (i : ℕ) (name : FileName) (w : Table)
    → IsAbsent (fifo d i) w
    → IsAbsent (fifo d i) (put_fifo true name w) ⊎ (fifo d i ≡ name)
fifo_made d i (fifo d' j) w h = elim (Bool-cases (same_fifo d' j d i)) [
  | inl e ↦ inr (same_fifo_lem d' d j i e)
  | inr e ↦ inl (rw e h)
]
fifo_made d i (argument name) w h = inl h
fifo_made d i (directory d') w h = inl h
fifo_made d i (output d' j ext) w h = inl h

pub fifo_removed :
    (d : Dir) (i : ℕ) (name : FileName) (w : Table)
    → IsAbsent (fifo d i) w
    → IsAbsent (fifo d i) (put_fifo false name w)
fifo_removed d i (fifo d' j) w h = elim (Bool-cases (same_fifo d' j d i)) [
  | inl e ↦ rw e refl
  | inr e ↦ rw e h
]
fifo_removed d i (argument name) w h = h
fifo_removed d i (directory d') w h = h
fifo_removed d i (output d' j ext) w h = h

abbrev pub table_removing : (d : Dir) → Removing table_system d
table_removing d = record {
  Absent = IsAbsent;
  open_keeps = λ i name flags w h. h;
  dup_keeps = λ i fd w h. h;
  close_keeps = closed_keeps d;
  set_pipe_size_keeps = λ i fd bytes w h. h;
  mkfifo_makes =
      λ i name w h. elim (fifo_made d i name w h) [ inl g ↦ inl g | inr e ↦ inr (e, refl) ];
  unlink_keeps = λ i name w h. fifo_removed d i name w h;
  unlink_removes = λ i w. rw (same_fifo_self d i) refl;
  create_keeps = λ i name w w' e h. ap (λ (v : Table). v.made d i) (sym (some_inj e)) ∙ h;
}
