-- ===== src/IoHandle/Owned.antt =====
-- Ownership: every descriptor that a handle was made from is owned by one handle or was closed.
use independent_study.Base.{
  some_inj, length, ℕ, zero, suc, ◌+◌, ◌≡◌, refl, ap, sym, subst, ◌∙◌, true, false, ◌==◌,
  Bool-cases, inl, inr, if◌then◌else◌, List, [], ◌∷◌, get_elem?, get_elem?-set_ne, ==_iff, ◌≢◌, set,
  Option, none, some, Option-cases, Outcome, ok, fail, ◌>>=◌, arith, pos, negsuc,
}
use independent_study.Base.Sums.{weigh, weigh-append}
use independent_study.Liburing.{Fd}
use independent_study.IoHandle.Calls.{
  Call, constructed, adopted, moved, destroyed, assigned, named, step, run, is_fd, slot_weight,
  owned, closes, adoptions,
}
use independent_study.IoHandle.{
  Name, IoHandle, World, unassigned_fd, is_assigned, object_at, put_slot, add_object,
  move_construct, close, close_assigned, destroy, load_name, store_name, set_name, take_fd,
  exchange_name, move_assign,
}

weigh-set :
    {A : Type 0} (f : A → ℕ) (xs : List A) (i : ℕ) (a b : A)
    → get_elem? xs i ≡ some a
    → weigh f (set xs i b) + f a ≡ weigh f xs + f b
weigh-set f [] i a b e = cc
weigh-set f (x ∷ xs) zero a b e = omega (arith, ap f (some_inj e))
weigh-set f (x ∷ xs) (suc i) a b e = omega (arith, weigh-set f xs i a b e)

-- What holds of a result, if there is one.
module _ {A : Type 0} where
  abbrev After : (A → Type 0) → Outcome A → Type 0
  After P (ok a) = P a
  After P (fail fault) = Unit

After-bind :
    {A B : Type 0} (P : A → Type 0) (Q : B → Type 0) (m : Outcome A) (f : A → Outcome B)
    → After P m
    → ((a : A) → P a → After Q (f a))
    → After Q (m >>= f)
After-bind P Q (ok a) f p onward = onward a p
After-bind P Q (fail fault) f p onward = tt

any : {A : Type 0} (m : Outcome A) → After (λ _. Unit) m
any (ok a) = tt
any (fail fault) = tt

abbrev pub Lives : World → ℕ → IoHandle → Type 0
Lives w i o = get_elem? w.objects i ≡ some (some o)

object_at-Lives : (w : World) (i : ℕ) → After (Lives w i) (object_at w i)
unfolding object_at
object_at-Lives w i = elim (Option-cases (get_elem? w.objects i)) [
  | inl e ↦ rw (e, object_at) tt
  | inr (none, e) ↦ rw (e, object_at) tt
  | inr (some o, e) ↦ rw (e, object_at) e
]

module _ (d : Fd) (assigned_d : is_assigned d ≡ true) where
  unassigned-is_fd : (fd : Fd) → is_assigned fd ≡ false → is_fd d fd ≡ 0
  unassigned-is_fd (pos n) h = cc
  unassigned-is_fd (negsuc n) h = by_sign d assigned_d
    where
      by_sign : (d : Fd) → is_assigned d ≡ true → is_fd d (negsuc n) ≡ 0
      by_sign (pos m) a = refl
      by_sign (negsuc m) a = ground arith

  abbrev total : World → ℕ
  total w = owned d w + closes d w

  put_slot-total :
      (w : World) (i : ℕ) (o : IoHandle) (slot : Option IoHandle)
      → Lives w i o
      → total (put_slot w i slot) + is_fd d o.fd ≡ total w + slot_weight d slot
  put_slot-total w i o slot e = omega (arith, weigh-set (slot_weight d) w.objects i (some o) slot e)

  add_object-total : (w : World) (o : IoHandle) → total (add_object w o) ≡ total w + is_fd d o.fd
  add_object-total w o = omega (arith, weigh-append (slot_weight d) w.objects (some o ∷ []))

  abbrev Kept : World → World → Type 0
  Kept w w' = total w' ≡ total w

  store_name-Kept : (w : World) (a : ℕ) (name : Name) → After (Kept w) (store_name w a name)
  unfolding store_name
  store_name-Kept w a name =
      After-bind (Lives w a) (Kept w) (object_at w a) _ (object_at-Lives w a)
        λ o e. omega (arith, put_slot-total w a o (some (record o { default_name = name })) e)

  -- Closing counts the descriptor, which its handle still holds.
  Closed : World → ℕ → World → Type 0
  Closed w i w' = (o : IoHandle) × Lives w' i o × (total w' ≡ total w + is_fd d o.fd)

  close_assigned-Closed : (w : World) (i : ℕ) → After (Closed w i) (close_assigned w i)
  unfolding close_assigned close Closed object_at
  close_assigned-Closed w i =
      After-bind (Lives w i) (Closed w i) (object_at w i) _ (object_at-Lives w i) λ o e.
        elim (Bool-cases (is_assigned o.fd)) [
          | inr free ↦ rw (free, close_assigned) (o, e, omega (arith, unassigned-is_fd o.fd free))
          | inl held ↦
              rw (held, close_assigned)
                (rw (e, close, object_at)
                  (o, e, omega (arith, weigh-append (is_fd d) w.closed (o.fd ∷ []))))
        ]

  destroy-Kept : (w : World) (i : ℕ) → After (Kept w) (destroy w i)
  unfolding destroy Closed
  destroy-Kept w i =
      After-bind (Closed w i) (Kept w) (close_assigned w i) _ (close_assigned-Closed w i)
        λ w' c. let (o, e, t) = c in omega (arith, t, put_slot-total w' i o none e)

  move_construct-Kept : (w : World) (j : ℕ) → After (Kept w) (move_construct w j)
  unfolding move_construct
  move_construct-Kept w j =
      After-bind (Lives w j) (Kept w) (object_at w j) _ (object_at-Lives w j) λ o e.
        let left : IoHandle = record o { fd = unassigned_fd } in
        omega (
          arith,
          put_slot-total w j o (some left) e,
          unassigned-is_fd unassigned_fd refl,
          add_object-total (put_slot w j (some left))
              (record { fd = o.fd; default_name = []; file_name = o.file_name }),
        )

  Kept-After : (w w1 : World) (m : Outcome World) → Kept w w1 → After (Kept w1) m → After (Kept w) m
  Kept-After w w1 (ok w2) p q = q ∙ p
  Kept-After w w1 (fail fault) p q = tt

  -- Where the two objects differ, the second one's descriptor passes to the first.
  take_fd-Kept : (w : World) (i j : ℕ) → i ≢ j → After (Kept w) (take_fd w i j)
  unfolding take_fd Closed
  take_fd-Kept w i j ne =
      After-bind (Closed w i) (Kept w) (close_assigned w i) _ (close_assigned-Closed w i) λ w1 c.
        let (a, ea, ta) = c in
        After-bind (Lives w1 j) (Kept w) (object_at w1 j) _ (object_at-Lives w1 j) λ other eo.
          let left : IoHandle = record other { fd = unassigned_fd } in
          let w2 = put_slot w1 j (some left) in
          After-bind (Lives w2 i) (Kept w) (object_at w2 i) _ (object_at-Lives w2 i) λ self es.
            let same : a ≡ self = some_inj (
              some_inj (
                sym ea
                ∙ sym (get_elem?-set_ne w1.objects j i (some left) (λ e. ne (sym e)))
                ∙ es)) in
            omega (
              arith,
              ta,
              put_slot-total w1 j other (some left) eo,
              unassigned-is_fd unassigned_fd refl,
              put_slot-total w2 i self (some (record self { fd = other.fd })) es,
              ap (λ (o : IoHandle). is_fd d o.fd) same,
            )

  set_name-Kept : (w : World) (i : ℕ) (name : Name) → After (Kept w) (set_name w i name)
  unfolding set_name
  set_name-Kept w i name =
      After-bind (Lives w i) (Kept w) (object_at w i) _ (object_at-Lives w i)
        λ self e. store_name-Kept w self.file_name name

  module _ (moved_from : Name → Name) where
    exchange_name-Kept : (w : World) (i j : ℕ) → After (Kept w) (exchange_name moved_from w i j)
    unfolding exchange_name
    exchange_name-Kept w i j =
        After-bind (Lives w j) (Kept w) (object_at w j) _ (object_at-Lives w j) λ other eo.
          After-bind (λ _. Unit) (Kept w) (load_name w other.file_name) _ (any _)
            λ old t.
              After-bind (Kept w) (Kept w) (store_name w other.file_name (moved_from old)) _
                (store_name-Kept w other.file_name (moved_from old))
                λ w1 k1.
                  After-bind (Lives w1 i) (Kept w) (object_at w1 i) _ (object_at-Lives w1 i)
                    λ self es.
                      After-bind (Kept w1) (Kept w)
                        (store_name w1 other.file_name self.default_name) _
                        (store_name-Kept w1 other.file_name self.default_name)
                        λ w2 k2.
                          Kept-After w w2 (store_name w2 self.file_name old) (k2 ∙ k1)
                            (store_name-Kept w2 self.file_name old)

    move_assign-Kept : (w : World) (i j : ℕ) → After (Kept w) (move_assign moved_from w i j)
    unfolding move_assign
    move_assign-Kept w i j =
        After-bind (Kept w) (Kept w) (if i == j then ok w else take_fd w i j) _ first
          λ w1 k. Kept-After w w1 (exchange_name moved_from w1 i j) k (exchange_name-Kept w1 i j)
      where
        first : After (Kept w) (if i == j then ok w else take_fd w i j)
        first = elim (Bool-cases (i == j)) [
          | inl e ↦ rw e refl
          | inr e ↦ rw e (take_fd-Kept w i j λ p. ground (arith, p, (==_iff i j).1 p))
        ]

    plus_none :
        (w : World) (m : Outcome World) → After (Kept w) m → After (λ w'. total w' ≡ total w + 0) m
    plus_none w (ok w') k = omega (arith, k)
    plus_none w (fail fault) k = tt

    -- One call: an adoption adds its descriptor, and every other call keeps the total.
    step-total :
        (w : World) (c : Call)
        → After (λ w'. total w' ≡ total w + adoptions d (c ∷ [])) (step moved_from w c)
    step-total w constructed = omega (
      arith,
      unassigned-is_fd unassigned_fd refl,
      add_object-total w
          (record { fd = unassigned_fd; default_name = []; file_name = length w.objects }),
    )
    step-total w (adopted fd) = omega (
      arith,
      add_object-total w (record { fd = fd; default_name = []; file_name = length w.objects }),
    )
    step-total w (moved j) = plus_none w (move_construct w j) (move_construct-Kept w j)
    step-total w (destroyed i) = plus_none w (destroy w i) (destroy-Kept w i)
    step-total w (assigned i j) =
        plus_none w (move_assign moved_from w i j) (move_assign-Kept w i j)
    step-total w (named i name) = plus_none w (set_name w i name) (set_name-Kept w i name)

    adoptions_cons :
        (c : Call) (cs : List Call) → adoptions d (c ∷ cs) ≡ adoptions d (c ∷ []) + adoptions d cs
    adoptions_cons constructed cs = omega arith
    adoptions_cons (adopted fd) cs = omega arith
    adoptions_cons (moved j) cs = omega arith
    adoptions_cons (destroyed i) cs = omega arith
    adoptions_cons (assigned i j) cs = omega arith
    adoptions_cons (named i name) cs = omega arith

    run-total :
        (cs : List Call) (w : World)
        → After (λ w'. total w' ≡ total w + adoptions d cs) (run moved_from w cs)
    run-total [] w = omega arith
    run-total (c ∷ cs) w =
        After-bind (λ w'. total w' ≡ total w + adoptions d (c ∷ []))
          (λ w'. total w' ≡ total w + adoptions d (c ∷ cs)) (step moved_from w c) _ (step-total w c)
          λ w1 e.
            subst (λ n. After (λ w'. total w' ≡ n) (run moved_from w1 cs))
              (omega (arith, e, adoptions_cons c cs)) (run-total cs w1)

-- Whatever handles are made, moved, assigned, named and destroyed, in whatever order, as long as
-- nothing undefined happens and `close` is not called from outside: the handles that own a
-- descriptor and the closes of it are together as many as before and as the handles made from it.
pub descriptors_conserved :
    (moved_from : Name → Name) (d : Fd) (cs : List Call) (w w' : World)
    → is_assigned d ≡ true
    → run moved_from w cs ≡ ok w'
    → owned d w' + closes d w' ≡ owned d w + closes d w + adoptions d cs
descriptors_conserved moved_from d cs w w' assigned_d e =
    subst (After (λ v. owned d v + closes d v ≡ owned d w + closes d w + adoptions d cs)) e
      (run-total d assigned_d moved_from cs w)
