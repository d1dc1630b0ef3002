-- ===== src/IoHandle.antt =====
-- source/file_system/IO_Handle.hpp and IO_Handle.cpp: a handle owns its descriptor, and gives it up
-- when it is moved from. An object is known by its address, the place of its slot in the list of
-- all objects made so far; the slot of a destroyed object is empty. `file_name` is a reference: the
-- address of the object whose `default_name` it stands for, which move construction passes on.
pub mod Calls
pub mod Owned
pub mod Names
pub mod Returns
pub mod FileSize
mod Tests
use independent_study.Base.{
  ℕ, Bool, not, ◌==◌, if◌then◌else◌, List, [], ◌∷◌, ◌++◌, length, get_elem?, set, Option, none,
  some, Outcome, ok, fail, ◌>>=◌, undefined, minus_one,
}
use independent_study.Liburing.{Fd, fd_eq}

-- The characters of a `std::string`.
abbrev pub Name : Type 0
Name = List ℕ

pub record IoHandle : Type 0 where
  pub fd : Fd
  pub default_name : Name
  pub file_name : ℕ

-- All objects, and the descriptors that `::close` was called with, in order.
pub record World : Type 0 where
  pub objects : List (Option IoHandle)
  pub closed : List Fd

abbrev pub unassigned_fd : Fd
unassigned_fd = minus_one

-- `operator bool`
abbrev pub is_assigned : Fd → Bool
is_assigned fd = not (fd_eq fd unassigned_fd)

-- A use of the object at an address.
unfoldable pub object_at : World → ℕ → Outcome IoHandle
object_at w i = elim (get_elem? w.objects i) [
  | none ↦ fail undefined
  | some slot ↦ elim slot [ none ↦ fail undefined | some o ↦ ok o ]
]

abbrev pub put_slot : World → ℕ → Option IoHandle → World
put_slot w i slot = record w { objects = set w.objects i slot }

abbrev pub add_object : World → IoHandle → World
add_object w o = record w { objects = w.objects ++ some o ∷ [] }

-- The two constructors that take a descriptor or none.
abbrev pub adopt : World → Fd → World
adopt w val = add_object w (record { fd = val; default_name = []; file_name = length w.objects })

abbrev pub make_default : World → World
make_default w = adopt w unassigned_fd

-- The move constructor: the new object's reference is bound to what the other's is bound to.
unfoldable pub move_construct : World → ℕ → Outcome World
unfolding object_at
move_construct w j = do
  other ← object_at w j
  let w' = put_slot w j (some (record other { fd = unassigned_fd }))
  ok (add_object w' (record { fd = other.fd; default_name = []; file_name = other.file_name }))

-- `close()`, which leaves `fd` as it is.
unfoldable pub close : World → ℕ → Outcome World
unfolding object_at
close w i = do self ← object_at w i; ok (record w { closed = w.closed ++ self.fd ∷ [] })

-- `if (*this) close();`
unfoldable pub close_assigned : World → ℕ → Outcome World
unfolding object_at close
close_assigned w i = object_at w i >>= λ self. if is_assigned self.fd then close w i else ok w

-- The destructor.
unfoldable pub destroy : World → ℕ → Outcome World
unfolding close_assigned
destroy w i = close_assigned w i >>= λ w'. ok (put_slot w' i none)

-- The string that a reference stands for.
unfoldable pub load_name : World → ℕ → Outcome Name
unfolding object_at
load_name w a = object_at w a >>= λ o. ok o.default_name

unfoldable pub store_name : World → ℕ → Name → Outcome World
unfolding object_at
store_name w a name =
    object_at w a >>= λ o. ok (put_slot w a (some (record o { default_name = name })))

unfoldable pub get_name : World → ℕ → Outcome Name
unfolding object_at load_name
get_name w i = object_at w i >>= λ self. load_name w self.file_name

unfoldable pub set_name : World → ℕ → Name → Outcome World
unfolding object_at store_name
set_name w i file = object_at w i >>= λ self. store_name w self.file_name file

-- `fd = std::exchange(other.fd, unassigned_fd)` behind the guard.
unfoldable pub take_fd : World → ℕ → ℕ → Outcome World
unfolding object_at close_assigned
take_fd w i j = do
  w1 ← close_assigned w i
  other ← object_at w1 j
  let w2 = put_slot w1 j (some (record other { fd = unassigned_fd }))
  self ← object_at w2 i
  ok (put_slot w2 i (some (record self { fd = other.fd })))

-- What a string holds once it was moved from is not specified.
module _ (moved_from : Name → Name) where
  -- `file_name = std::exchange(other.file_name, default_name)`: `default_name` is read behind the
  -- move, and may be the string that was moved from.
  unfoldable pub exchange_name : World → ℕ → ℕ → Outcome World
  unfolding object_at load_name store_name
  exchange_name w i j = do
    other ← object_at w j
    old ← load_name w other.file_name
    w1 ← store_name w other.file_name (moved_from old)
    self ← object_at w1 i
    w2 ← store_name w1 other.file_name self.default_name
    store_name w2 self.file_name old

  -- `operator=`
  unfoldable pub move_assign : World → ℕ → ℕ → Outcome World
  unfolding take_fd exchange_name
  move_assign w i j = (if i == j then ok w else take_fd w i j) >>= λ w'. exchange_name w' i j
