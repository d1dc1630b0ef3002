-- ===== src/FileIo/Sim.antt =====
-- Files and memory that meet `Reliable`, for runs on concrete inputs: an address is the number of an
-- allocation, and stands for the whole block.
use independent_study.Base.{
  some_inj, Bool, true, false, ℕ, suc, ◌+◌, ◌-◌, ◌≤◌, ◌<◌, ◌≡◌, ◌≢◌, refl, ap, ap₂, sym, ◌∙◌, ◌==◌,
  ==_iff, Bool-cases, inl, inr, if◌then◌else◌, List, [], ◌∷◌, ◌++◌, length, take, drop,
  length-eq-zero, length-take, length-drop, none, some, pos, arith,
}
use independent_study.Base.Slices.{take_all, append-take-drop, write_at}
use independent_study.Liburing.{Fd, fd_eq, fd_eq_iff, Iovec, iov_bytes}
use independent_study.IoHandle.FileSize.{regular}
use independent_study.FileIo.{FileIo, Reliable, Counting}

pub record Disk : Type 0 where
  pub files : Fd → List ℕ
  pub next : ℕ
  pub memory : ℕ → List ℕ
  -- how many allocations stand at an address
  pub live : ℕ → ℕ

abbrev pub update : (ℕ → List ℕ) → ℕ → List ℕ → ℕ → List ℕ
update m p bytes q = if p == q then bytes else m q

abbrev pub gather : List Iovec → (ℕ → List ℕ) → List ℕ
gather [] m = []
gather (v ∷ vs) m = take v.iov_len (m v.iov_base) ++ gather vs m

abbrev pub scatter : List Iovec → List ℕ → (ℕ → List ℕ) → ℕ → List ℕ
scatter [] bytes m = m
scatter (v ∷ vs) bytes m =
    scatter vs (drop v.iov_len bytes) (update m v.iov_base (take v.iov_len bytes))

abbrev pub write_file : Fd → List ℕ → (Fd → List ℕ) → Fd → List ℕ
write_file fd bytes files other = if fd_eq fd other then bytes else files other

abbrev pub count_up : (ℕ → ℕ) → ℕ → ℕ → ℕ
count_up live p q = live q + (if p == q then 1 else 0)

abbrev pub count_down : (ℕ → ℕ) → ℕ → ℕ → ℕ
count_down live p q = live q - (if p == q then 1 else 0)

abbrev pub allocated : Disk → ℕ × Disk
allocated w = (w.next, record w { next = w.next + 1; live = count_up w.live w.next })

abbrev pub disk_io : FileIo
disk_io = record {
  World = Disk;
  fstat = λ fd w. some (record { st_mode = regular; st_size = pos (length (w.files fd)) });
  blkgetsize64 = λ fd w. none;
  posix_memalign = λ alignment size w. some (allocated w);
  free = λ p w. record w { memory = update w.memory p []; live = count_down w.live p };
  preadv = λ fd vs off w.
      let part = take (iov_bytes vs) (drop off (w.files fd)) in
      (pos (length part), record w { memory = scatter vs part w.memory });
  pwritev = λ fd vs off w. (
    pos (iov_bytes vs),
    record w { files = write_file fd (write_at off (gather vs w.memory) (w.files fd)) w.files },
  );
}

-- The addresses from k on, in ascending order and below `next`.
abbrev pub Ascending : ℕ → List Iovec → ℕ → Type 0
Ascending k [] next = k ≤ next
Ascending k (v ∷ vs) next = (k ≤ v.iov_base) × Ascending (suc v.iov_base) vs next

pub Ascending-snoc :
    (k : ℕ) (vs : List Iovec) (next len : ℕ)
    → Ascending k vs next
    → Ascending k (vs ++ record { iov_base = next; iov_len = len } ∷ []) (next + 1)
Ascending-snoc k [] next len h = (h, omega arith)
Ascending-snoc k (v ∷ vs) next len h = (h.0, Ascending-snoc (suc v.iov_base) vs next len h.1)

-- What lies below the addresses is left alone.
scatter_below :
    (k : ℕ) (vs : List Iovec) (next p : ℕ) (bytes : List ℕ) (m : ℕ → List ℕ)
    → Ascending k vs next
    → p < k
    → scatter vs bytes m p ≡ m p
scatter_below k [] next p bytes m h lt = refl
scatter_below k (v ∷ vs) next p bytes m h lt =
    scatter_below (suc v.iov_base) vs next p (drop v.iov_len bytes) _ h.1 (omega (arith, h.0))
    ∙ ground (arith, h.0)

gather-scatter :
    (k : ℕ) (vs : List Iovec) (next : ℕ) (bytes : List ℕ) (m : ℕ → List ℕ)
    → Ascending k vs next
    → length bytes ≡ iov_bytes vs
    → gather vs (scatter vs bytes m) ≡ bytes
gather-scatter k [] next bytes m h size = sym (length-eq-zero bytes size)
gather-scatter k (v ∷ vs) next bytes m h size =
    let part = take v.iov_len bytes in
    let rest = drop v.iov_len bytes in
    let m' = update m v.iov_base part in
    let at_v : scatter vs rest m' v.iov_base ≡ part =
      scatter_below (suc v.iov_base) vs next v.iov_base rest m' h.1 (omega arith) ∙ ground arith in
    ap₂ (λ xs ys. xs ++ ys)
      (ap (take v.iov_len) at_v
        ∙ take_all v.iov_len part (omega (arith, length-take v.iov_len bytes)))
      (gather-scatter (suc v.iov_base) vs next rest m' h.1
        (omega (arith, length-drop v.iov_len bytes, size)))
    ∙ append-take-drop v.iov_len bytes

abbrev pub Buffers : List Iovec → Disk → Type 0
Buffers vs w = Ascending 0 vs w.next

pub write_file_self :
    (fd : Fd) (bytes : List ℕ) (files : Fd → List ℕ) → write_file fd bytes files fd ≡ bytes
write_file_self fd bytes files = rw ((fd_eq_iff fd fd).1 refl)

pub write_file_ne :
    (fd other : Fd) (bytes : List ℕ) (files : Fd → List ℕ)
    → other ≢ fd
    → write_file fd bytes files other ≡ files other
write_file_ne fd other bytes files ne = elim (Bool-cases (fd_eq fd other)) [
  | inl e ↦ absurd (ne (sym ((fd_eq_iff fd other).0 e)))
  | inr e ↦ rw e
]

module _ (fd : Fd) (vs : List Iovec) (off : ℕ) (w : Disk) where
  pub disk_reads :
      Buffers vs w
      → off + iov_bytes vs ≤ length (w.files fd)
      → (w' : Disk) × (disk_io.preadv fd vs off w ≡ (pos (iov_bytes vs), w'))
        × Buffers vs w'
        × (gather vs w'.memory ≡ take (iov_bytes vs) (drop off (w.files fd)))
        × ((other : Fd) → w'.files other ≡ w.files other)
  disk_reads b fits =
      let part = take (iov_bytes vs) (drop off (w.files fd)) in
      let size : length part ≡ iov_bytes vs =
        omega (
          arith,
          length-take (iov_bytes vs) (drop off (w.files fd)),
          length-drop off (w.files fd),
        ) in
      let w' : Disk = record w { memory = scatter vs part w.memory } in
      (
        w',
        ap (λ n. (pos n, w')) size,
        b,
        gather-scatter 0 vs w.next part w.memory b size,
        λ other. refl,
      )

  pub disk_writes :
      (w' : Disk) × (disk_io.pwritev fd vs off w ≡ (pos (iov_bytes vs), w'))
      × (w'.files fd ≡ write_at off (gather vs w.memory) (w.files fd))
      × ((other : Fd) → other ≢ fd → w'.files other ≡ w.files other)
  disk_writes =
      let bytes = write_at off (gather vs w.memory) (w.files fd) in
      (
        record w { files = write_file fd bytes w.files },
        refl,
        write_file_self fd bytes w.files,
        λ other ne. write_file_ne fd other bytes w.files ne,
      )

abbrev pub disk_reliable : (block : ℕ) → Reliable disk_io block
disk_reliable block = record {
  content = λ fd w. w.files fd;
  Usable = λ fd. Unit;
  Writable = λ fd. Unit;
  Ready = λ w. Unit;
  Buffers = Buffers;
  gathered = λ vs w. gather vs w.memory;
  ready_kept = record {
    memalign_keeps = λ w w' p e h. h;
    free_keeps = λ p w h. h;
    preadv_keeps = λ fd vs off w h. h;
    pwritev_keeps = λ fd vs off w h. h;
  };
  fstat_size = λ fd w usable ready. refl;
  no_buffers = λ w. omega arith;
  alloc =
      λ vs w len b h. (w.next, (allocated w).1, refl, Ascending-snoc 0 vs w.next len b, λ fd. refl);
  free_content = λ p w fd. refl;
  preadv_reads = λ fd vs off w usable ready b fits. disk_reads fd vs off w b fits;
  pwritev_writes = λ fd vs off w writable ready b reaches.
      let (w', e, wrote, others) = disk_writes fd vs off w in
      (w', e, wrote, λ other usable ne. others other ne);
}

pub count_down_lem :
    (live : ℕ → ℕ) (p q : ℕ) → 1 ≤ live p → count_down live p q + (if p == q then 1 else 0) ≡ live q
count_down_lem live p q h = elim (Bool-cases (p == q)) [
  | inl e ↦ rw e (omega (arith, ap live ((==_iff p q).0 e)))
  | inr e ↦ rw e (omega arith)
]

pub alloc_counts :
    (w w' : Disk) (p q : ℕ)
    → some (allocated w) ≡ some (p, w')
    → w'.live q ≡ w.live q + (if p == q then 1 else 0)
alloc_counts w w' p q e =
    let same = some_inj e in
    ap (λ (r : ℕ × Disk). r.1.live q) (sym same)
    ∙ ap (λ (r : ℕ × Disk). w.live q + (if r.0 == q then 1 else 0)) same

abbrev pub disk_counting : (block : ℕ) → Counting disk_io block
disk_counting block = record {
  held = λ q w. w.live q;
  alloc_holds = alloc_counts;
  free_releases = λ p w q h. count_down_lem w.live p q h;
  preadv_holds = λ fd vs off w q. refl;
  pwritev_holds = λ fd vs off w q. refl;
}

-- Memory for one block only.
abbrev pub cramped_io : FileIo
cramped_io = record disk_io {
  posix_memalign = λ alignment size w. if w.next == 0 then some (allocated w) else none;
}

given_is : {A : Type 0} (b : Bool) (x y : A) → (if b then some x else none) ≡ some y → x ≡ y
given_is true x y e = some_inj e
given_is false x y e = cc

pub cramped_counts :
    (w w' : Disk) (p q : ℕ)
    → (if w.next == 0 then some (allocated w) else none) ≡ some (p, w')
    → w'.live q ≡ w.live q + (if p == q then 1 else 0)
cramped_counts w w' p q e =
    alloc_counts w w' p q (ap some (given_is (w.next == 0) (allocated w) (p, w') e))

abbrev pub cramped_counting : (block : ℕ) → Counting cramped_io block
cramped_counting block = record {
  held = λ q w. w.live q;
  alloc_holds = cramped_counts;
  free_releases = λ p w q h. count_down_lem w.live p q h;
  preadv_holds = λ fd vs off w q. refl;
  pwritev_holds = λ fd vs off w q. refl;
}
