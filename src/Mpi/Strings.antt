-- ===== src/Mpi/Strings.antt =====
-- What the ranks return from `broadcast`.
use independent_study.Base.{
  ℕ, zero, suc, ◌+◌, ◌-◌, ◌%◌, ◌^◌, ◌≤◌, ◌<◌, ◌≡◌, refl, ap, sym, ◌∙◌, Bool-cases, inl, inr, false,
  ltb, le→ltb, lt→ltb, ◌==◌, ==_iff, ==_ne, if◌then◌else◌, List, [], ◌∷◌, ◌++◌, map, length, drop,
  replicate, length-replicate, get_elem?, get_elem?-map, some, some_inj, ok, ◌>>=◌, pos, negsuc,
  arith,
}
use independent_study.Mpi.{
  Mpi, to_int, make_buffer, copy_in, rank_buffer, rank_buffers, read_string, read_strings,
  broadcast,
}

-- The part of a string before its first character 0.
unfoldable pub before_nul : List ℕ → List ℕ
before_nul [] = []
before_nul (c ∷ cs) = if c == 0 then [] else c ∷ before_nul cs

read_string_lem : (msg : List ℕ) → read_string (msg ++ 0 ∷ []) ≡ ok (before_nul msg)
unfolding read_string before_nul
read_string_lem [] = refl
read_string_lem (c ∷ cs) = elim (Bool-cases (c == 0)) [
  | inl e ↦ rw e refl
  | inr e ↦ rw e (rw (read_string_lem cs) refl)
]

read_strings_lem :
    (b s : List ℕ) (ms : List (List ℕ))
    → read_string b ≡ ok s
    → read_strings (map (λ (m : List ℕ). b) ms) ≡ ok (map (λ (m : List ℕ). s) ms)
unfolding read_strings
read_strings_lem b s [] e = refl
read_strings_lem b s (m ∷ ms) e =
    rw (e, read_strings) (rw (read_strings_lem b s ms e, read_strings) refl)

map_const :
    {A B C : Type 0} (f : A → B) (v : C) (xs : List A)
    → map (λ (b : B). v) (map f xs) ≡ map (λ (a : A). v) xs
map_const f v [] = refl
map_const f v (x ∷ xs) = ap (λ l. v ∷ l) (map_const f v xs)

map_same :
    {A B C : Type 0} (v : C) (xs : List A) (ys : List B)
    → length xs ≡ length ys
    → map (λ (a : A). v) xs ≡ map (λ (b : B). v) ys
map_same v [] [] e = refl
map_same v [] (y ∷ ys) e = absurd (omega (arith, e))
map_same v (x ∷ xs) [] e = absurd (omega (arith, e))
map_same v (x ∷ xs) (y ∷ ys) e = ap (λ l. v ∷ l) (map_same v xs ys (omega (arith, e)))

drop_to_last : (n : ℕ) → drop {A = ℕ} n (replicate (suc n) 0) ≡ 0 ∷ []
drop_to_last zero = refl
drop_to_last (suc n) = drop_to_last n

make_buffer_lem : (n : ℕ) → n < 2 ^ 31 - 1 → make_buffer (pos n) ≡ ok (replicate (suc n) 0)
unfolding make_buffer
make_buffer_lem n h =
    let no_overflow : (n == 2 ^ 31 - 1) ≡ false = ground arith in rw no_overflow refl

copy_in_lem : (msg : List ℕ) → copy_in msg (replicate (suc (length msg)) 0) ≡ ok (msg ++ 0 ∷ [])
unfolding copy_in
copy_in_lem msg =
    let room : length msg ≤ length (replicate {A = ℕ} (suc (length msg)) 0) =
      omega (arith, length-replicate {A = ℕ} (suc (length msg)) 0) in
    rw (le→ltb (length (replicate {A = ℕ} (suc (length msg)) 0)) (length msg) room)
      (ap (λ l. ok (msg ++ l)) (drop_to_last (length msg)))

to_int_small : (n : ℕ) → n < 2 ^ 31 - 1 → to_int n ≡ pos n
to_int_small n h =
    let same : n % 2 ^ 32 ≡ n = omega arith in
    ap (λ k. if ltb k (2 ^ 31) then pos k else negsuc (2 ^ 32 - 1 - k)) same
    ∙ rw (lt→ltb n (2 ^ 31) (omega arith)) refl

-- The buffers from a rank on, where the size of the caster's message has arrived.
record Buffers (rank caster n : ℕ) (ms : List (List ℕ)) : Type 0 where
  buffers : List (List ℕ)
  result : rank_buffers rank caster ms (map (λ (m : List ℕ). pos n) ms) ≡ ok buffers
  many : length buffers ≡ length ms
  there :
      (i : ℕ) (m : List ℕ)
      → get_elem? ms i ≡ some m
      → rank + i ≡ caster
      → get_elem? buffers i ≡ some (m ++ 0 ∷ [])

rank_buffer_lem :
    (rank caster n : ℕ) (m : List ℕ)
    → n < 2 ^ 31 - 1
    → (rank ≡ caster → length m ≡ n)
    → (b : List ℕ) × (rank_buffer rank caster m (pos n) ≡ ok b) × (rank ≡ caster → b ≡ m ++ 0 ∷ [])
unfolding rank_buffer
rank_buffer_lem rank caster n m h size = elim (Bool-cases (rank == caster)) [
  | inl e ↦
      let fits = size ((==_iff rank caster).0 e) in
      (
        m ++ 0 ∷ [],
        rw (make_buffer_lem n h, rank_buffer)
            (rw (e, rank_buffer)
              (ap (λ k. copy_in m (replicate (suc k) 0)) (sym fits) ∙ copy_in_lem m)),
        λ here. refl,
      )
  | inr e ↦ (
    replicate (suc n) 0,
    rw (make_buffer_lem n h, rank_buffer) (rw (e, rank_buffer) refl),
    λ here. absurd (==_ne rank caster e here),
  )
]

first_or_rest :
    (rank caster : ℕ) (b m : List ℕ) (ms bs : List (List ℕ))
    → (rank + 0 ≡ caster → b ≡ m ++ 0 ∷ [])
    → ((i : ℕ) (m' : List ℕ)
        → get_elem? ms i ≡ some m'
        → rank + suc i ≡ caster
        → get_elem? bs i ≡ some (m' ++ 0 ∷ []))
    → (i : ℕ) (m' : List ℕ) → get_elem? (m ∷ ms) i ≡ some m'
    → rank + i ≡ caster
    → get_elem? (b ∷ bs) i ≡ some (m' ++ 0 ∷ [])
first_or_rest rank caster b m ms bs first rest zero m' e here =
    ap some (first here ∙ ap (λ l. l ++ 0 ∷ []) (some_inj e))
first_or_rest rank caster b m ms bs first rest (suc i) m' e here = rest i m' e here

rank_buffers_lem :
    (ms : List (List ℕ)) (rank caster n : ℕ)
    → n < 2 ^ 31 - 1
    → ((i : ℕ) (m : List ℕ) → get_elem? ms i ≡ some m → rank + i ≡ caster → length m ≡ n)
    → Buffers rank caster n ms
unfolding rank_buffers
rank_buffers_lem [] rank caster n h size = record {
  buffers = [];
  result = refl;
  many = refl;
  there = λ i m e here. cc;
}
rank_buffers_lem (m ∷ ms) rank caster n h size =
    let (b, e, full) =
      rank_buffer_lem rank caster n m h (λ here. size 0 m refl (omega (arith, here))) in
    let rest =
      rank_buffers_lem ms (rank + 1) caster n h
        (λ i m' e' here. size (suc i) m' e' (omega (arith, here))) in
    record {
      buffers = b ∷ rest.buffers;
      result = rw (e, rank_buffers) (rw (rest.result, rank_buffers) refl);
      many = ap suc rest.many;
      there =
          first_or_rest rank caster b m ms rest.buffers (λ here. full (omega (arith, here)))
            (λ i m' e' here. rest.there i m' e' (omega (arith, here)));
    }

module _ (mpi : Mpi) where
  open mpi use {bcast, bcast_all}

  -- Where the caster's message is shorter than 2 ^ 31 - 1 characters, `broadcast` returns on every
  -- rank the part of that message before its first character 0, whatever the other ranks are given.
  pub broadcast_lem :
      (caster : ℕ) (msgs : List (List ℕ)) (msg : List ℕ)
      → get_elem? msgs caster ≡ some msg
      → length msg < 2 ^ 31 - 1
      → broadcast mpi caster msgs ≡ ok (map (λ (m : List ℕ). before_nul msg) msgs)
  unfolding broadcast
  broadcast_lem caster msgs msg e small =
      let n = length msg in
      let size : to_int n ≡ pos n = to_int_small n small in
      let sizes : bcast caster (map (λ (m : List ℕ). to_int (length m)) msgs)
          ≡ map (λ (m : List ℕ). pos n) msgs =
        bcast_all caster _ (to_int n)
          (get_elem?-map (λ (m : List ℕ). to_int (length m)) msgs caster msg e)
        ∙ map_const (λ (m : List ℕ). to_int (length m)) (to_int n) msgs
        ∙ ap (λ z. map (λ (m : List ℕ). z) msgs) size in
      let f = rank_buffers_lem msgs 0 caster n small (λ i m e' here.
        ap length (some_inj (sym e' ∙ ap (get_elem? msgs) (omega (arith, here)) ∙ e))) in
      let sent : bcast caster f.buffers ≡ map (λ (m : List ℕ). msg ++ 0 ∷ []) msgs =
        bcast_all caster f.buffers (msg ++ 0 ∷ []) (f.there caster msg e (omega arith))
        ∙ map_same (msg ++ 0 ∷ []) f.buffers msgs f.many in
      ap (λ ss. rank_buffers 0 caster msgs ss >>= λ bs. read_strings (bcast caster bs)) sizes
      ∙ ap (λ r. r >>= λ bs. read_strings (bcast caster bs)) f.result
      ∙ ap read_strings sent
      ∙ read_strings_lem (msg ++ 0 ∷ []) (before_nul msg) msgs (read_string_lem msg)
