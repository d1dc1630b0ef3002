-- ===== src/ReadvTree/Window.antt =====
-- One window where nothing fails: its bytes are copied, and nothing else changes.
use independent_study.Base.{
  ℕ, zero, suc, ◌+◌, ◌-◌, ◌*◌, ◌/◌, ◌≤◌, ◌≡◌, ◌≢◌, refl, ap, ap₂, sym, subst, ◌∙◌, min, List, [],
  ◌∷◌, ◌++◌, append-nil, append_assoc, length, take, drop, Option, some, ℤ, arith,
}
use independent_study.Base.Slices.{write_at}
use independent_study.Liburing.{Fd, Iovec, iov_bytes}
use independent_study.FileIo.{FileIo, Reliable}
use independent_study.ReadvTree.Frame.{free_all-keeps, allocate-keeps}
use independent_study.ReadvTree.{
  chunk_size, add_block, allocate, free_all, transfer, transfer_blocks, copy_window, copied,
}

module _ (io : FileIo) (rel : Reliable io chunk_size) where
  open io use {World, fstat, blkgetsize64}
  open rel use {
    content, Usable, Writable, Ready, Buffers, gathered, ready_kept, fstat_size, no_buffers, alloc,
    free_content, preadv_reads, pwritev_writes,
  }

  -- No file changes.
  abbrev pub Same : World → World → Type 0
  Same w w' = (fd : Fd) → content fd w' ≡ content fd w

  record Allocated (blocks i window : ℕ) (vs : List Iovec) (w : World) : Type 0 where
    iovecs : List Iovec
    world : World
    result : allocate io blocks i window w ≡ (some iovecs, world)
    buffers : Buffers (vs ++ iovecs) world
    sum : iov_bytes iovecs ≡ window - i * chunk_size
    same : Same w world

  allocate_lem :
      (blocks i window : ℕ) (vs : List Iovec) (w : World)
      → blocks ≡ (window - i * chunk_size + chunk_size - 1) / chunk_size
      → Buffers vs w
      → Allocated blocks i window vs w
  unfolding allocate
  allocate_lem zero i window vs w count b = record {
    iovecs = [];
    world = w;
    result = refl;
    buffers = subst (λ us. Buffers us w) (sym (append-nil vs)) b;
    sum = omega arith;
    same = λ fd. refl;
  }
  allocate_lem (suc blocks) i window vs w count b =
      let len = min chunk_size (window - i * chunk_size) in
      let (p, w', e, b', same) = alloc vs w len b (omega arith) in
      let v : Iovec = record { iov_base = p; iov_len = len } in
      let rest = allocate_lem blocks (i + 1) window (vs ++ v ∷ []) w' (omega arith) b' in
      record {
        iovecs = v ∷ rest.iovecs;
        world = rest.world;
        result = rw (e, allocate) (ap (add_block io v) rest.result);
        buffers =
            subst (λ us. Buffers us rest.world) (append_assoc vs (v ∷ []) rest.iovecs) rest.buffers;
        sum = omega (arith, rest.sum);
        same = λ fd. rest.same fd ∙ same fd;
      }

  free_all-Same : (vs : List Iovec) (w : World) → Same w (free_all io vs w)
  unfolding free_all
  free_all-Same [] w fd = refl
  free_all-Same (v ∷ vs) w fd =
      free_all-Same vs (io.free v.iov_base w) fd ∙ free_content v.iov_base w fd

  -- The n bytes of the input at `off` are written to the output at `off`, and nothing else.
  pub record Copied (input output : Fd) (off n : ℕ) (w w' : World) : Type 0 where
    pub written :
        content output w' ≡ write_at off (take n (drop off (content input w))) (content output w)
    pub others : (fd : Fd) → Usable fd → fd ≢ output → content fd w' ≡ content fd w
    pub ready : Ready w'

  transfer_lem :
      (input output : Fd) (off : ℕ) (vs : List Iovec) (w : World)
      → Usable input
      → Writable output
      → Ready w
      → Buffers vs w
      → off + iov_bytes vs ≤ length (content input w)
      → off ≤ length (content output w)
      → (w' : World) × (transfer io input output off vs w ≡ copied w')
        × Copied input output off (iov_bytes vs) w w'
  unfolding transfer
  transfer_lem input output off vs w usable writable ready b fits reaches =
      let (w1, e1, b1, got, same) = preadv_reads input vs off w usable ready b fits in
      let ready1 : Ready w1 =
        subst Ready (ap (λ (r : ℤ × World). r.1) e1)
          (ready_kept.preadv_keeps input vs off w ready) in
      let (w2, e2, wrote, others) =
        pwritev_writes output vs off w1 writable ready1 b1
          (omega (arith, reaches, ap length (same output))) in
      let ready2 : Ready w2 =
        subst Ready (ap (λ (r : ℤ × World). r.1) e2)
          (ready_kept.pwritev_keeps output vs off w1 ready1) in
      (
        free_all io vs w2,
        rw (e1, transfer) (rw e2),
        record {
          written = free_all-Same vs w2 output ∙ wrote ∙ ap₂ (write_at off) got (same output);
          others = λ fd u ne. free_all-Same vs w2 fd ∙ others fd u ne ∙ same fd;
          ready = free_all-keeps io Ready ready_kept vs w2 ready2;
        },
      )

  copy-Allocated :
      (input output : Fd) (off window : ℕ) (w : World)
      → Usable input
      → Writable output
      → Ready w
      → Allocated ((window + chunk_size - 1) / chunk_size) 0 window [] w
      → off + window ≤ length (content input w)
      → off ≤ length (content output w)
      → (w' : World) × (copy_window io input output off window w ≡ copied w')
        × Copied input output off window w w'
  unfolding copy_window transfer_blocks
  copy-Allocated input output off window w usable writable ready a fits reaches =
      let ready' : Ready a.world =
        subst Ready (ap (λ (r : Option (List Iovec) × World). r.1) a.result) (
          allocate-keeps io Ready ready_kept ((window + chunk_size - 1) / chunk_size) 0 window w
            ready) in
      let sum : iov_bytes a.iovecs ≡ window = omega (arith, a.sum) in
      let (w', e, c) =
        transfer_lem input output off a.iovecs a.world usable writable ready' a.buffers
          (omega (arith, sum, ap length (a.same input)))
          (omega (arith, ap length (a.same output))) in
      (
        w',
        ap (transfer_blocks io input output off) a.result ∙ e,
        record {
          written =
              c.written
              ∙ ap₂ (write_at off) (ap₂ (λ n xs. take n (drop off xs)) sum (a.same input))
                  (a.same output);
          others = λ fd u ne. c.others fd u ne ∙ a.same fd;
          ready = c.ready;
        },
      )

  pub copy_window_lem :
      (input output : Fd) (off window : ℕ) (w : World)
      → Usable input
      → Writable output
      → Ready w
      → off + window ≤ length (content input w)
      → off ≤ length (content output w)
      → (w' : World) × (copy_window io input output off window w ≡ copied w')
        × Copied input output off window w w'
  copy_window_lem input output off window w usable writable ready =
      copy-Allocated input output off window w usable writable ready (
        allocate_lem ((window + chunk_size - 1) / chunk_size) 0 window [] w (omega arith)
          (no_buffers w))
