-- ===== src/Liburing.antt =====
-- The part of liburing and of the kernel's interface that the engines call, which is not code of
-- this repository: the requests, the completions, and the submission queue as a record of
-- operations and of the laws that its manual states. `Liburing/Sim.antt` meets them.
pub mod Sim
pub mod Queue
pub mod Links
pub mod Push
use independent_study.Base.Sums.{weigh}
use independent_study.Base.{
  ◌↔◌, ◌⊎◌, ◌≢◌, inl, inr, Bool-cases, ==_iff, ap, true, pos_part, ℕ, ◌^◌, ◌≤◌, ◌<◌, ◌≡◌, Bool,
  false, ◌==◌, pos, negsuc, List, [], ◌∷◌, ◌++◌, length, Option, none, some, ℤ,
}

-- A file descriptor is an `int`; -1 is none.
abbrev pub Fd : Type 0
Fd = ℤ

abbrev pub fd_eq : Fd → Fd → Bool
fd_eq (pos a) (pos b) = a == b
fd_eq (pos a) (negsuc b) = false
fd_eq (negsuc a) (pos b) = false
fd_eq (negsuc a) (negsuc b) = a == b

pub fd_eq_iff : (a b : Fd) → (fd_eq a b ≡ true) ↔ (a ≡ b)
fd_eq_iff (pos a) (pos b) = (λ e. ap pos ((==_iff a b).0 e), λ e. (==_iff a b).1 (ap pos_part e))
fd_eq_iff (pos a) (negsuc b) = (λ e. cc, λ e. cc)
fd_eq_iff (negsuc a) (pos b) = (λ e. cc, λ e. cc)
fd_eq_iff (negsuc a) (negsuc b) = (
  λ e. ap negsuc ((==_iff a b).0 e),
  λ e. (==_iff a b).1 (ap (λ z. elim z [ pos n ↦ 0 | negsuc n ↦ n ]) e),
)

pub fd_cases : (a b : Fd) → (a ≡ b) ⊎ (a ≢ b)
fd_cases a b = elim (Bool-cases (fd_eq a b)) [
  | inl e ↦ inl ((fd_eq_iff a b).0 e)
  | inr e ↦ inr (λ same. let yes = (fd_eq_iff a b).1 same in cc)
]

-- `struct iovec`
pub record Iovec : Type 0 where
  pub iov_base : ℕ
  pub iov_len : ℕ

abbrev pub iov_bytes : List Iovec → ℕ
iov_bytes = weigh (λ v. v.iov_len)

-- What `io_uring_prep_*` writes into an entry. An offset of -1 stands for a pipe's own position.
pub data Request : Type 0 where
  readv writev : Fd → List Iovec → ℕ → Request
  splice : Fd → ℤ → Fd → ℤ → ℕ → Request
  tee : Fd → Fd → ℕ → Request

-- `io_uring_sqe`; `link` is IOSQE_IO_LINK.
pub record Sqe (D : Type 0) : Type 0 where
  pub request : Request
  pub link : Bool
  pub user_data : D

-- `io_uring_cqe`
pub record Cqe (D : Type 0) : Type 0 where
  pub user_data : D
  pub res : ℤ

-- What a wait for a completion gives: an error, or the next completion.
pub data Wait (D : Type 0) : Type 0 where
  failed : Wait D
  got : Cqe D → Wait D

-- `io_uring_get_sqe` gives no entry when the queue is full, and else an entry, which is modelled
-- by the ring that results from filling it. `io_uring_submit` hands all entries to the kernel as
-- one batch and empties the queue.
pub record Liburing (D : Type 0) : Type 1 where
  pub Ring : Type 0
  pub depth : Ring → ℕ
  pub queued : Ring → List (Sqe D)
  pub batches : Ring → List (List (Sqe D))
  pub queue_init : ℕ → Option Ring
  pub get_sqe : Ring → Option (Sqe D → Ring)
  pub submit : Ring → Ring
  pub init_depth : (k : ℕ) (r : Ring) → queue_init (2 ^ k) ≡ some r → depth r ≡ 2 ^ k
  pub init_queued : (n : ℕ) (r : Ring) → queue_init n ≡ some r → queued r ≡ []
  pub init_batches : (n : ℕ) (r : Ring) → queue_init n ≡ some r → batches r ≡ []
  pub get_full : (r : Ring) → depth r ≤ length (queued r) → get_sqe r ≡ none
  pub get_free :
      (r : Ring)
      → length (queued r) < depth r
      → (fill : Sqe D → Ring) × (get_sqe r ≡ some fill)
        × ((s : Sqe D) → queued (fill s) ≡ queued r ++ s ∷ [])
        × ((s : Sqe D) → batches (fill s) ≡ batches r)
        × ((s : Sqe D) → depth (fill s) ≡ depth r)
  pub submit_queued : (r : Ring) → queued (submit r) ≡ []
  pub submit_batches : (r : Ring) → batches (submit r) ≡ batches r ++ queued r ∷ []
  pub submit_depth : (r : Ring) → depth (submit r) ≡ depth r
