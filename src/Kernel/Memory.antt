-- ===== src/Kernel/Memory.antt =====
-- A kernel with files and blocks of memory that meets `Vectors`, for runs on concrete inputs.
use independent_study.Base.{
  ℕ, ◌+◌, ◌≤◌, ◌≡◌, ◌≢◌, refl, ap, ap₂, sym, ◌∙◌, Bool-cases, inl, inr, if◌then◌else◌, List, [],
  ◌∷◌, ◌++◌, length, length-eq-zero, length-take, length-drop, take, drop, arith,
}
use independent_study.Base.Slices.{take_all, append-take-drop, write_at}
use independent_study.Liburing.{
  Fd, fd_eq, fd_eq_iff, Iovec, iov_bytes, Request, readv, writev, splice, tee,
}
use independent_study.FileIo.Sim.{update, gather, scatter}
use independent_study.Kernel.{Kernel, padded}
use independent_study.Kernel.Vectors.{uses, Usable, Disjoint, Vectors}

pub record Store : Type 0 where
  pub files : Fd → List ℕ
  pub memory : ℕ → List ℕ

abbrev read_in : Fd → List Iovec → ℕ → Store → Store
read_in f vs off w = record w {
  memory = scatter vs (take (iov_bytes vs) (drop off (w.files f))) w.memory;
}

abbrev write_out : Fd → List Iovec → ℕ → Store → Store
write_out f vs off w = record w {
  files = λ g.
      if fd_eq g f then write_at off (gather vs w.memory) (padded off (w.files f)) else w.files g;
}

abbrev carried_out : Request → Store → Store
carried_out (readv f vs off) w = read_in f vs off w
carried_out (writev f vs off) w = write_out f vs off w
carried_out (splice i off_in o off_out len) w = w
carried_out (tee i o len) w = w

abbrev pub store_kernel : Kernel
store_kernel = record { World = Store; run = carried_out }

scatter_other :
    (vs : List Iovec) (bytes : List ℕ) (m : ℕ → List ℕ) (q : ℕ)
    → uses q vs ≡ 0
    → scatter vs bytes m q ≡ m q
scatter_other [] bytes m q none = refl
scatter_other (v ∷ vs) bytes m q none =
    scatter_other vs (drop v.iov_len bytes) _ q (omega (arith, none)) ∙ ground (arith, none)

gather_same :
    (us : List Iovec) (m m' : ℕ → List ℕ)
    → ((q : ℕ) → 1 ≤ uses q us → m' q ≡ m q)
    → gather us m' ≡ gather us m
gather_same [] m m' same = refl
gather_same (u ∷ us) m m' same =
    ap₂ (λ xs ys. take u.iov_len xs ++ ys) (same u.iov_base (ground arith))
      (gather_same us m m' (λ q h. same q (omega (arith, h))))

gather-scatter :
    (vs : List Iovec) (bytes : List ℕ) (m : ℕ → List ℕ)
    → ((q : ℕ) → uses q vs ≤ 1)
    → length bytes ≡ iov_bytes vs
    → gather vs (scatter vs bytes m) ≡ bytes
gather-scatter [] bytes m once size = sym (length-eq-zero bytes size)
gather-scatter (v ∷ vs) bytes m once size =
    let part = take v.iov_len bytes in
    let rest = drop v.iov_len bytes in
    let m' = update m v.iov_base part in
    let alone : uses v.iov_base vs ≡ 0 = ground (arith, once v.iov_base) in
    let at_v : scatter vs rest m' v.iov_base ≡ part =
      scatter_other vs rest m' v.iov_base alone ∙ ground arith in
    ap₂ (λ xs ys. xs ++ ys)
      (ap (take v.iov_len) at_v
        ∙ take_all v.iov_len part (omega (arith, length-take v.iov_len bytes)))
      (gather-scatter vs rest m' (λ q. omega (arith, once q))
        (omega (arith, length-drop v.iov_len bytes, size)))
    ∙ append-take-drop v.iov_len bytes

pub read_in_lem :
    (f : Fd) (vs : List Iovec) (off : ℕ) (w : Store)
    → Usable vs
    → off + iov_bytes vs ≤ length (w.files f)
    → (gather vs (read_in f vs off w).memory ≡ take (iov_bytes vs) (drop off (w.files f)))
      × ((us : List Iovec)
          → Disjoint us vs
          → gather us (read_in f vs off w).memory ≡ gather us w.memory)
      × ((g : Fd) → w.files g ≡ w.files g)
read_in_lem f vs off w usable fits =
    let part = take (iov_bytes vs) (drop off (w.files f)) in
    (
      gather-scatter vs part w.memory usable.1 (
          omega (
            arith,
            length-take (iov_bytes vs) (drop off (w.files f)),
            length-drop off (w.files f),
          )),
      λ us apart.
          gather_same us w.memory (scatter vs part w.memory)
            (λ q used. scatter_other vs part w.memory q (omega (arith, apart q, used))),
      λ g. refl,
    )

pub write_out_lem :
    (f : Fd) (vs : List Iovec) (off : ℕ) (w : Store)
    → ((write_out f vs off w).files f ≡ write_at off (gather vs w.memory) (padded off (w.files f)))
      × ((g : Fd) → g ≢ f → (write_out f vs off w).files g ≡ w.files g)
      × ((us : List Iovec) → gather us w.memory ≡ gather us w.memory)
write_out_lem f vs off w = (
  rw ((fd_eq_iff f f).1 refl) refl,
  λ g ne. elim (Bool-cases (fd_eq g f)) [
    | inl e ↦ absurd (ne ((fd_eq_iff g f).0 e))
    | inr e ↦ rw e refl
  ],
  λ us. refl,
)

abbrev pub store_vectors : Vectors store_kernel
store_vectors = record {
  content = λ f w. w.files f;
  gathered = λ vs w. gather vs w.memory;
  readv_reads = read_in_lem;
  writev_writes = λ f vs off w usable size. write_out_lem f vs off w;
}
