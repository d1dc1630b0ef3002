-- ===== src/IoHandle/Names.antt =====
-- What the reference `file_name` stands for once its object was moved from.
use independent_study.Base.{
  get_elem?-some_lt, ℕ, suc, zero, ◌<◌, ◌≡◌, refl, ap, ◌∙◌, List, [], ◌∷◌, ◌++◌, length, length-set,
  length-append, get_elem?, set, get_elem?-set_self, get_elem?-append_left, get_elem?-append_last,
  none, some, fail, ◌>>=◌, undefined, arith,
}
use independent_study.IoHandle.{
  IoHandle, World, unassigned_fd, object_at, move_construct, close_assigned, destroy, load_name,
  get_name,
}

set-append :
    {A : Type 0} (xs ys : List A) (i : ℕ) (a : A)
    → i < length xs
    → set (xs ++ ys) i a ≡ set xs i a ++ ys
set-append [] ys i a h = absurd (omega arith)
set-append (x ∷ xs) ys zero a h = refl
set-append (x ∷ xs) ys (suc i) a h = ap (λ zs. x ∷ zs) (set-append xs ys i a (omega arith))

-- A handle with a name of its own that is moved from and then destroyed leaves the new handle, the
-- last object, with a reference to a string that is gone: asking it for its name is undefined.
pub moved_name_dangles :
    (w : World) (j : ℕ) (o : IoHandle)
    → get_elem? w.objects j ≡ some (some o)
    → o.file_name ≡ j
    → (move_construct w j >>= λ w1. destroy w1 j >>= λ w2. get_name w2 (length w.objects))
      ≡ fail undefined
unfolding move_construct destroy close_assigned object_at get_name load_name
moved_name_dangles w j o e own =
    let lt = get_elem?-some_lt w.objects j (some o) e in
    let n = length w.objects in
    let left : IoHandle = record o { fd = unassigned_fd } in
    let new : IoHandle = record { fd = o.fd; default_name = []; file_name = o.file_name } in
    let xs = set w.objects j (some left) in
    let lt' : j < length xs = omega (arith, length-set w.objects j (some left), lt) in
    let objects = xs ++ some new ∷ [] in
    let at_j : get_elem? objects j ≡ some (some left) =
      get_elem?-append_left xs (some new ∷ []) j lt'
      ∙ get_elem?-set_self w.objects j (some left) lt in
    let gone : get_elem? (set objects j none) j ≡ some none =
      get_elem?-set_self objects j none (omega (arith, lt', length-append xs (some new ∷ []))) in
    let at_n : get_elem? (set objects j none) n ≡ some (some new) =
      ap (λ ys. get_elem? ys n) (set-append xs (some new ∷ []) j none lt')
      ∙ get_elem?-append_last (set xs j none) (some new) n
          (omega (arith, length-set xs j none, length-set w.objects j (some left))) in
    let w2 : World = record { objects = set objects j none; closed = w.closed } in
    let no_name : load_name w2 j ≡ fail undefined = rw (gone, load_name, object_at) in
    rw (e, move_construct, object_at)
      (rw (at_j, destroy, close_assigned, object_at)
        (rw (at_n, get_name, object_at) (ap (load_name w2) own ∙ no_name)))
