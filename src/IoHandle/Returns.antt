-- ===== src/IoHandle/Returns.antt =====
-- On handles that live, and whose names live, every call returns.
use independent_study.Base.{
  get_elem?-some_lt, some_inj, ==_ne, ==_iff, ℕ, ◌≡◌, refl, ap, sym, ◌∙◌, ◌==◌, Bool-cases, inl,
  inr, if◌then◌else◌, [], ◌∷◌, ◌++◌, get_elem?, get_elem?-set_self, get_elem?-set_ne, set, none,
  some, Outcome, ok, ◌>>=◌,
}
use independent_study.IoHandle.Calls.{
  Call, constructed, adopted, moved, destroyed, assigned, named, step,
}
use independent_study.IoHandle.{
  Name, IoHandle, World, unassigned_fd, is_assigned, object_at, put_slot, add_object, adopt,
  make_default, move_construct, close, close_assigned, destroy, load_name, store_name, set_name,
  take_fd, exchange_name, move_assign,
}
use independent_study.IoHandle.Owned.{Lives}

-- A result, and what holds of it.
module _ {A : Type 0} where
  abbrev Returns : (A → Type 0) → Outcome A → Type 0
  Returns P m = (a : A) × (m ≡ ok a) × P a

Returns-bind :
    {A B : Type 0} (P : A → Type 0) (Q : B → Type 0) (m : Outcome A) (f : A → Outcome B)
    → Returns P m
    → ((a : A) → P a → Returns Q (f a))
    → Returns Q (m >>= f)
Returns-bind P Q m f (a, e, p) onward =
    let (b, e', q) = onward a p in (b, ap (λ n. n >>= f) e ∙ e', q)

-- An object whose name's owner lives.
abbrev Named : World → ℕ → Type 0
Named w i = (o : IoHandle) × Lives w i o × (owner : IoHandle) × Lives w o.file_name owner

-- What each call asks for.
abbrev pub Usable : World → Call → Type 0
Usable w constructed = Unit
Usable w (adopted fd) = Unit
Usable w (moved j) = (o : IoHandle) × Lives w j o
Usable w (destroyed i) = (o : IoHandle) × Lives w i o
Usable w (assigned i j) = Named w i × Named w j
Usable w (named i name) = Named w i

object_at_lem : (w : World) (i : ℕ) (o : IoHandle) → Lives w i o → object_at w i ≡ ok o
unfolding object_at
object_at_lem w i o e = rw (e, object_at) refl

load_name_lem : (w : World) (a : ℕ) (o : IoHandle) → Lives w a o → load_name w a ≡ ok o.default_name
unfolding load_name
load_name_lem w a o e = rw (object_at_lem w a o e, load_name) refl

-- No object is lost, and no reference rebound.
SameNames : World → World → Type 0
SameNames w w' =
    (i : ℕ) (o : IoHandle)
    → Lives w i o
    → (o' : IoHandle) × Lives w' i o' × (o'.file_name ≡ o.file_name)

SameNames-refl : (w : World) → SameNames w w
unfolding SameNames
SameNames-refl w i o e = (o, e, refl)

SameNames-trans : (w w1 w2 : World) → SameNames w w1 → SameNames w1 w2 → SameNames w w2
unfolding SameNames
SameNames-trans w w1 w2 p q i o e =
    let (o1, e1, n1) = p i o e in let (o2, e2, n2) = q i o1 e1 in (o2, e2, n2 ∙ n1)

put_slot-SameNames :
    (w : World) (i : ℕ) (o o' : IoHandle)
    → Lives w i o
    → o'.file_name ≡ o.file_name
    → SameNames w (put_slot w i (some o'))
unfolding SameNames
put_slot-SameNames w i o o' e n k x ex = elim (Bool-cases (i == k)) [
  | inr ne ↦ (x, get_elem?-set_ne w.objects i k (some o') (==_ne i k ne) ∙ ex, refl)
  | inl e' ↦ (
    o',
    ap (get_elem? (set w.objects i (some o'))) (sym ((==_iff i k).0 e'))
        ∙ get_elem?-set_self w.objects i (some o') (get_elem?-some_lt w.objects i (some o) e),
    n
        ∙ ap (λ (y : IoHandle). y.file_name)
            (some_inj (some_inj (sym e ∙ ap (get_elem? w.objects) ((==_iff i k).0 e') ∙ ex))),
  )
]

Named-SameNames : (w w' : World) (i : ℕ) → SameNames w w' → Named w i → Named w' i
unfolding SameNames
Named-SameNames w w' i s (o, e, owner, eo) =
    let (o', e', n) = s i o e in
    let (owner', eo', _) = s o.file_name owner eo in
    (o', e', owner', ap (get_elem? w'.objects) n ∙ eo')

store_name-Returns :
    (w : World) (a : ℕ) (o : IoHandle) (name : Name)
    → Lives w a o
    → Returns (SameNames w) (store_name w a name)
unfolding store_name
store_name-Returns w a o name e =
    let o' : IoHandle = record o { default_name = name } in
    (
      put_slot w a (some o'),
      rw (object_at_lem w a o e, store_name) refl,
      put_slot-SameNames w a o o' e refl,
    )

-- `close` touches no object.
close_assigned-Returns :
    (w : World) (i : ℕ) (o : IoHandle)
    → Lives w i o
    → Returns (λ w'. w'.objects ≡ w.objects) (close_assigned w i)
unfolding close_assigned close
close_assigned-Returns w i o e = elim (Bool-cases (is_assigned o.fd)) [
  | inr free ↦ (w, rw (object_at_lem w i o e, close_assigned) (rw free refl), refl)
  | inl held ↦ (
    record w { closed = w.closed ++ o.fd ∷ [] },
    rw (object_at_lem w i o e, close_assigned, close) (rw held refl),
    refl,
  )
]

take_fd-Returns :
    (w : World) (i j : ℕ) (a b : IoHandle)
    → Lives w i a
    → Lives w j b
    → Returns (SameNames w) (take_fd w i j)
unfolding take_fd SameNames
take_fd-Returns w i j a b ea eb =
    let (w1, e1, same) = close_assigned-Returns w i a ea in
    let at_j : Lives w1 j b = ap (λ os. get_elem? os j) same ∙ eb in
    let at_i : Lives w1 i a = ap (λ os. get_elem? os i) same ∙ ea in
    let left : IoHandle = record b { fd = unassigned_fd } in
    let w2 = put_slot w1 j (some left) in
    let first = put_slot-SameNames w1 j b left at_j refl in
    let (a', ea', _) = first i a at_i in
    let taken : IoHandle = record a' { fd = b.fd } in
    (
      put_slot w2 i (some taken),
      rw (e1, take_fd) (rw (object_at_lem w1 j b at_j) (rw (object_at_lem w2 i a' ea') refl)),
      λ k x ex.
          SameNames-trans w1 w2 (put_slot w2 i (some taken)) first
            (put_slot-SameNames w2 i a' taken ea' refl) k x (ap (λ os. get_elem? os k) same ∙ ex),
    )

set_name-Returns :
    (w : World) (i : ℕ) (name : Name) → Named w i → Returns (SameNames w) (set_name w i name)
unfolding set_name
set_name-Returns w i name (o, e, owner, eo) =
    let (w', e', s) = store_name-Returns w o.file_name owner name eo in
    (w', rw (object_at_lem w i o e, set_name) e', s)

module _ (moved_from : Name → Name) where
  exchange_name-Returns :
      (w : World) (i j : ℕ)
      → Named w i
      → Named w j
      → Returns (SameNames w) (exchange_name moved_from w i j)
  unfolding exchange_name SameNames
  exchange_name-Returns w i j (a, ea, own_a, eoa) (b, eb, own_b, eob) =
      let (w1, e1, s1) =
        store_name-Returns w b.file_name own_b (moved_from own_b.default_name) eob in
      let (a1, ea1, na1) = s1 i a ea in
      let (own_b1, eob1, _) = s1 b.file_name own_b eob in
      let (w2, e2, s2) = store_name-Returns w1 b.file_name own_b1 a1.default_name eob1 in
      let (own_a1, eoa1, _) = s1 a.file_name own_a eoa in
      let (own_a2, eoa2, _) = s2 a.file_name own_a1 eoa1 in
      let (w3, e3, s3) =
        store_name-Returns w2 a1.file_name own_a2 own_b.default_name
          (ap (get_elem? w2.objects) na1 ∙ eoa2) in
      (
        w3,
        rw (object_at_lem w j b eb, exchange_name)
            (rw (load_name_lem w b.file_name own_b eob)
              (rw e1 (rw (object_at_lem w1 i a1 ea1) (rw e2 e3)))),
        SameNames-trans w w1 w3 s1 (SameNames-trans w1 w2 w3 s2 s3),
      )

  move_assign-Returns :
      (w : World) (i j : ℕ)
      → Named w i
      → Named w j
      → Returns (SameNames w) (move_assign moved_from w i j)
  unfolding move_assign
  move_assign-Returns w i j ni nj =
      Returns-bind (SameNames w) (SameNames w) (if i == j then ok w else take_fd w i j) _ first
        λ w1 s1.
          let (w2, e2, s2) =
            exchange_name-Returns w1 i j (Named-SameNames w w1 i s1 ni)
              (Named-SameNames w w1 j s1 nj) in
          (w2, e2, SameNames-trans w w1 w2 s1 s2)
    where
      first : Returns (SameNames w) (if i == j then ok w else take_fd w i j)
      first = elim (Bool-cases (i == j)) [
        | inl e ↦ (w, rw e refl, SameNames-refl w)
        | inr e ↦ let (w1, e1, s1) = take_fd-Returns w i j ni.0 nj.0 ni.1 nj.1 in (w1, rw e e1, s1)
      ]

  -- Every call on handles that live returns, where a call that reads or writes names finds the
  -- objects alive whose names the references stand for.
  pub step-Returns :
      (w : World) (c : Call) → Usable w c → (w' : World) × (step moved_from w c ≡ ok w')
  unfolding move_construct destroy
  step-Returns w constructed h = (make_default w, refl)
  step-Returns w (adopted fd) h = (adopt w fd, refl)
  step-Returns w (moved j) (o, e) =
      let w1 = put_slot w j (some (record o { fd = unassigned_fd })) in
      let new : IoHandle = record { fd = o.fd; default_name = []; file_name = o.file_name } in
      (add_object w1 new, rw (object_at_lem w j o e, move_construct) refl)
  step-Returns w (destroyed i) (o, e) =
      let (w1, e1, _) = close_assigned-Returns w i o e in
      (put_slot w1 i none, rw (e1, destroy) refl)
  step-Returns w (assigned i j) (ni, nj) =
      let (w', e, _) = move_assign-Returns w i j ni nj in (w', e)
  step-Returns w (named i name) h = let (w', e, _) = set_name-Returns w i name h in (w', e)
