-- ===== src/Request.antt =====
-- source/Network/Request.hpp and source/Network/Request.cpp: the class `Request`. Its handle is a
-- reference: the address of an object. `getFile` returns the handle as an `int`, which goes by way
-- of the conversion to `bool`.
mod Tests
use independent_study.Base.{
  ℕ, ◌≡◌, ◌↔◌, refl, sym, ap, ◌∙◌, Bool-cases, inl, inr, false, if◌then◌else◌, List, Outcome, ok,
  ok_inj, ◌>>=◌, pos, negsuc,
}
use independent_study.Liburing.{Fd}
use independent_study.IoHandle.{Name, IoHandle, World, is_assigned, object_at, get_name}
use independent_study.Broadcaster.{OpType}

pub record Request : Type 0 where
  pub type : OpType
  pub buffer : List ℕ
  pub file : ℕ
  pub bytes_to_write : ℕ

-- The constructor, which binds the reference to the handle at address `fd`.
abbrev pub new_request : OpType → List ℕ → ℕ → ℕ → Request
new_request type content fd write_size = record {
  type = type;
  buffer = content;
  file = fd;
  bytes_to_write = write_size;
}

-- The conversion of a handle to `bool`, and on to `int`.
abbrev pub as_int : IoHandle → Fd
as_int h = if is_assigned h.fd then pos 1 else pos 0

unfoldable pub get_file : World → Request → Outcome Fd
unfolding object_at
get_file w q = object_at w q.file >>= λ h. ok (as_int h)

-- Both return a copy of the buffer.
abbrev pub get_data : Request → List ℕ
get_data q = q.buffer

abbrev pub get_shared_buffer : Request → List ℕ
get_shared_buffer q = q.buffer

abbrev pub bytes : Request → ℕ
bytes q = q.bytes_to_write

abbrev pub get_type : Request → OpType
get_type q = q.type

abbrev pub set_type : OpType → Request → Request
set_type new_type q = record q { type = new_type }

unfoldable pub request_name : World → Request → Outcome Name
unfolding get_name
request_name w q = get_name w q.file

assigned : (fd : Fd) (n : ℕ) → fd ≡ pos n → is_assigned fd ≡ false → ⊥
assigned (pos m) n owned unowned = cc
assigned (negsuc m) n owned unowned = cc

-- Where the request's handle lives, `getFile` returns the descriptor of that handle, which is what
-- `native_handle` returns, exactly where the descriptor is 1.
pub get_file_lem :
    (w : World) (q : Request) (h : IoHandle)
    → object_at w q.file ≡ ok h
    → (get_file w q ≡ ok h.fd) ↔ (h.fd ≡ pos 1)
unfolding get_file
get_file_lem w q h live = elim (Bool-cases (is_assigned h.fd)) [
  | inl e ↦
      let one : get_file w q ≡ ok (pos 1) = rw (live, get_file) (rw e refl) in
      (λ same. ok_inj (sym same ∙ one), λ is_one. one ∙ ap ok (sym is_one))
  | inr e ↦
      let zero : get_file w q ≡ ok (pos 0) = rw (live, get_file) (rw e refl) in
      (
        λ same. absurd (assigned h.fd 0 (ok_inj (sym same ∙ zero)) e),
        λ is_one. absurd (assigned h.fd 1 is_one e),
      )
]
