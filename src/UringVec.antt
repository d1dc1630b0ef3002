-- ===== src/UringVec.antt =====
-- source/IOuring/uring_vec_broadcaster.hpp: the broadcast that reads and writes windows of 8 MiB
-- by one linked pair of vectored requests each. The allocator is a parameter: `posix_memalign`
-- takes an alignment, a size and the heap, and gives a pointer and the new heap, or fails. The
-- user data of a request is null or a context, which is modelled by the context itself.
pub mod Context
pub mod Pairs
pub mod Windows
pub mod Reap
pub mod Plan
pub mod Freed
pub mod Whole
pub mod Delivery
mod Tests
use independent_study.Base.{
  ℕ, zero, suc, ◌+◌, ◌-◌, ◌*◌, ◌/◌, ◌%◌, min, true, false, ltb, ◌==◌, if◌then◌else◌, List, [], ◌∷◌,
  length, map, Option, none, some, Outcome, ok, fail, ◌>>=◌, exception, undefined, blocked,
  out_of_fuel, ℤ, is_negative, add_size, to_word, word_mod,
}
use independent_study.Liburing.{Fd, Iovec, Sqe, Wait, failed, got, readv, writev, Liburing}

-- BLOCK_SZ and WINDOW_SIZE
abbrev pub block_sz : ℕ
block_sz = 65536

abbrev pub window_size : ℕ
window_size = 8388608

-- `raw_pointers` holds the same pointers as `iovecs`.
pub record RequestContext : Type 0 where
  pub iovecs : List Iovec
  pub raw_pointers : List ℕ
  pub bytes : ℕ

abbrev pub Data : Type 0
Data = Option RequestContext

abbrev pub read_sqe : Fd → RequestContext → ℕ → Sqe Data
read_sqe input ctx off = record {
  request = readv input ctx.iovecs off;
  link = true;
  user_data = none;
}

abbrev pub write_sqe : Fd → RequestContext → ℕ → Sqe Data
write_sqe output ctx off = record {
  request = writev output ctx.iovecs off;
  link = false;
  user_data = some ctx;
}

-- The bytes that a completion with a context adds.
unfoldable pub count_cqe : ℕ → RequestContext → ℤ → ℕ
count_cqe total ctx res = if is_negative res then total else add_size total ctx.bytes

-- `(sz + WINDOW_SIZE - 1) / WINDOW_SIZE * output_files.size()` on `size_t`
abbrev pub expected_completions : ℤ → ℕ → ℕ
expected_completions size outputs =
    (add_size (to_word size) (window_size - 1) / window_size) * outputs % word_mod

module _ {Heap : Type 0} (free : ℕ → Heap → Heap) where
  -- The destructor of `RequestContext`.
  unfoldable pub free_pointers : List ℕ → Heap → Heap
  free_pointers [] h = h
  free_pointers (p ∷ ps) h = free_pointers ps (free p h)

  -- `while (completed < total_expected_completions)`
  unfoldable pub reap : ℕ → ℕ → ℕ → Heap → List (Wait Data) → Outcome (ℕ × Heap)
  unfolding count_cqe free_pointers
  reap expected completed total h [] =
      if ltb completed expected then fail blocked else ok (total, h)
  reap expected completed total h (failed ∷ ws) = ok (total, h)
  reap expected completed total h (got c ∷ ws) =
      let next : Outcome (ℕ × Heap) = elim c.user_data [
        | none ↦ reap expected completed total h ws
        | some ctx ↦
            reap expected (completed + 1) (count_cqe total ctx c.res)
              (free_pointers ctx.raw_pointers h) ws
      ] in
      if ltb completed expected then next else ok (total, h)

module _ (u : Liburing Data) where
  open u use {Ring, get_sqe, submit}

  -- `io_uring_get_sqe`, once more after a submission if it gave none, and the writes to `*sqe`.
  unfoldable pub queue_entry : Ring → Sqe Data → Outcome Ring
  queue_entry r s = elim (get_sqe r) [
    | some fill ↦ ok (fill s)
    | none ↦ elim (get_sqe (submit r)) [ none ↦ fail undefined | some fill ↦ ok (fill s) ]
  ]

module _ {Heap : Type 0} (posix_memalign : ℕ → ℕ → Heap → Option (ℕ × Heap)) where
  -- The loop of the constructor: `std::bad_alloc` where an allocation fails.
  unfoldable pub fill_blocks : ℕ → ℕ → Heap → Outcome (List Iovec × Heap)
  fill_blocks zero remaining h = ok ([], h)
  fill_blocks (suc blocks) remaining h = elim (posix_memalign 4096 block_sz h) [
    | none ↦ fail exception
    | some (ptr, h') ↦
        let to_read = min remaining block_sz in
        fill_blocks blocks (remaining - to_read) h' >>= λ (iovs, h'').
        ok (record { iov_base = ptr; iov_len = to_read } ∷ iovs, h'')
  ]

  unfoldable pub new_context : ℕ → ℕ → Heap → Outcome (RequestContext × Heap)
  unfolding fill_blocks
  new_context blocks bytes_to_process h = do
    (iovs, h') ← fill_blocks blocks bytes_to_process h
    let ctx : RequestContext = record {
      iovecs = iovs;
      raw_pointers = map (λ (v : Iovec). v.iov_base) iovs;
      bytes = bytes_to_process;
    }
    ok (ctx, h')

  module _ (u : Liburing Data) where
    open u use {Ring, queue_init, submit}

    -- One round of `while (total_processed < file_sz)`: the new total is returned too.
    unfoldable pub window : Fd → Fd → ℕ → ℕ → Ring → Heap → ℕ → Outcome (Ring × Heap × ℕ)
    unfolding new_context queue_entry
    window input output start_offset file_sz r h total = do
      let bytes_to_process = min window_size (file_sz - total)
      let blocks = (bytes_to_process + block_sz - 1) / block_sz
      (ctx, h') ← new_context blocks bytes_to_process h
      r1 ← queue_entry u r (read_sqe input ctx (start_offset + total))
      r2 ← queue_entry u r1 (write_sqe output ctx (start_offset + total))
      ok (r2, h', total + bytes_to_process)

    unfoldable pub windows : ℕ → Fd → Fd → ℕ → ℕ → Ring → Heap → ℕ → Outcome (Ring × Heap × ℕ)
    unfolding window
    windows zero input output start sz r h total = fail out_of_fuel
    windows (suc fuel) input output start sz r h total = elim (ltb total sz) [
      | false ↦ ok (submit r, h, total)
      | true ↦ window input output start sz r h total >>= λ (r', h', total').
          windows fuel input output start sz r' h' total'
    ]

    -- The size of the input comes from `IO_Handle::get_file_size`; -1 becomes 2 ^ 64 - 1.
    unfoldable pub submit_readv_writev : Fd → Fd → ℤ → ℕ → Ring → Heap → Outcome (Ring × Heap × ℕ)
    unfolding windows
    submit_readv_writev input output size start r h =
        let sz : ℕ = to_word size in
        if sz == 0 then ok (r, h, 0) else windows (suc sz) input output start sz r h 0

    -- `for (auto &dest : output_files)`
    unfoldable pub submit_all : Fd → List Fd → ℤ → Ring → Heap → Outcome (Ring × Heap)
    unfolding submit_readv_writev
    submit_all input [] size r h = ok (r, h)
    submit_all input (dest ∷ dests) size r h =
        submit_readv_writev input dest size 0 r h >>= λ (r', h', _).
        submit_all input dests size r' h'

    unfoldable pub perform_uring_broadcast :
        (ℕ → Heap → Heap) → Fd → List Fd → ℤ → Heap → List (Wait Data) → Outcome (ℕ × Heap)
    unfolding submit_all reap
    perform_uring_broadcast free input dests size h ws = elim (queue_init 1024) [
      | none ↦ ok (0, h)
      | some r ↦ submit_all input dests size r h >>= λ (r', h').
          reap free (expected_completions size (length dests)) 0 0 h' ws
    ]
