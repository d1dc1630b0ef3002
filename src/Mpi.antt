-- ===== src/Mpi.antt =====
-- source/mpi/broadcaster.cpp and comms.hpp: a string goes from one rank to all, by one collective
-- call for its size and one for its characters. The ranks run side by side: what each of them
-- holds is one entry of a list, and `MPI_Bcast`, a parameter, works on the whole list.
pub mod Strings
pub mod Comms
mod Tests
use independent_study.Base.{
  ℕ, zero, suc, ◌+◌, ◌-◌, ◌/◌, ◌%◌, ◌^◌, ◌≡◌, ltb, ◌==◌, if◌then◌else◌, List, [], ◌∷◌, ◌++◌, map,
  length, drop, replicate, get_elem?, some, Outcome, ok, fail, ◌>>=◌, exception, undefined, ℤ, pos,
  negsuc,
}

-- After the call the buffers of all ranks hold what the root's held.
pub record Mpi : Type 1 where
  pub bcast : {A : Type 0} → ℕ → List A → List A
  pub bcast_all :
      {A : Type 0} (root : ℕ) (buffers : List A) (v : A)
      → get_elem? buffers root ≡ some v
      → bcast root buffers ≡ map (λ _. v) buffers

-- The conversion of a `size_t` to an `int`.
abbrev pub to_int : ℕ → ℤ
to_int n = let m = n % 2 ^ 32 in if ltb m (2 ^ 31) then pos m else negsuc (2 ^ 32 - 1 - m)

-- `std::vector<char> buffer(size + 1)`: the sum of `int`s can overflow, and a negative one is a
-- size that no vector has.
unfoldable pub make_buffer : ℤ → Outcome (List ℕ)
make_buffer (pos n) = if n == 2 ^ 31 - 1 then fail undefined else ok (replicate (suc n) 0)
make_buffer (negsuc zero) = ok []
make_buffer (negsuc (suc n)) = fail exception

-- `std::copy` to the beginning of the buffer.
unfoldable pub copy_in : List ℕ → List ℕ → Outcome (List ℕ)
copy_in msg buffer =
    if ltb (length buffer) (length msg)
    then fail undefined
    else ok (msg ++ drop (length msg) buffer)

unfoldable pub rank_buffer : ℕ → ℕ → List ℕ → ℤ → Outcome (List ℕ)
unfolding make_buffer copy_in
rank_buffer rank caster msg size =
    make_buffer size >>= λ buffer. if rank == caster then copy_in msg buffer else ok buffer

-- The buffers of the ranks from `rank` on.
unfoldable pub rank_buffers : ℕ → ℕ → List (List ℕ) → List ℤ → Outcome (List (List ℕ))
unfolding rank_buffer
rank_buffers rank caster [] sizes = ok []
rank_buffers rank caster (m ∷ ms) [] = ok []
rank_buffers rank caster (m ∷ ms) (s ∷ ss) =
    rank_buffer rank caster m s >>= λ b. rank_buffers (rank + 1) caster ms ss >>= λ bs. ok (b ∷ bs)

-- `std::string(buffer.data())` reads up to the first character 0.
unfoldable pub read_string : List ℕ → Outcome (List ℕ)
read_string [] = fail undefined
read_string (c ∷ cs) =
    let rest = read_string cs in if c == 0 then ok [] else (rest >>= λ s. ok (c ∷ s))

unfoldable pub read_strings : List (List ℕ) → Outcome (List (List ℕ))
unfolding read_string
read_strings [] = ok []
read_strings (b ∷ bs) = read_string b >>= λ s. read_strings bs >>= λ ss. ok (s ∷ ss)

module _ (mpi : Mpi) where
  open mpi use {bcast}

  -- `broadcast` on all ranks: the strings that they return, from those that they are given.
  unfoldable pub broadcast : ℕ → List (List ℕ) → Outcome (List (List ℕ))
  unfolding rank_buffers read_strings
  broadcast caster msgs =
      let sizes = bcast caster (map (λ (m : List ℕ). to_int (length m)) msgs) in
      rank_buffers 0 caster msgs sizes >>= λ buffers. read_strings (bcast caster buffers)

  -- The messages of `test_comms`: "hello" at the caster, else none.
  unfoldable pub test_messages : ℕ → ℕ → ℕ → List (List ℕ)
  test_messages zero rank caster = []
  test_messages (suc left) rank caster =
      (if rank == caster then 104 ∷ 101 ∷ 108 ∷ 108 ∷ 111 ∷ [] else [])
      ∷ test_messages left (rank + 1) caster

  unfoldable pub test_comms : ℕ → Outcome (List (List ℕ))
  unfolding broadcast test_messages
  test_comms num_proc = broadcast (num_proc / 2) (test_messages num_proc 0 (num_proc / 2))
