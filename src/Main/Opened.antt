-- ===== src/Main/Opened.antt =====
-- The source and the outputs of `main` (source/main.cpp), once they are open, as `Reliable` has them.
use independent_study.Base.{
  ◌⊎◌, inl, inr, ℕ, ◌≡◌, ◌≢◌, refl, ap, sym, subst, ◌∙◌, List, get_elem?, some, some_inj,
}
use independent_study.Base.Orders.{All-each}
use independent_study.Liburing.{Fd}
use independent_study.IoHandle.{Name}
use independent_study.FileIo.{Reliable, Kept}
use independent_study.ReadvTree.{chunk_size}
use independent_study.ReadvTree.Nodes.{Group, Apart-each}
use independent_study.Main.{Dir, FileName, output, OpenFlags, rdonly, rdwr_create_trunc, System}
use independent_study.Main.Files.{CopyCalls, file_io, Files, CanRead}

module _ (sys : System) (calls : CopyCalls sys.World) (files : Files sys calls) (dir : Dir)
    (ext : Name) (input : FileName) (apart : (i : ℕ) → files.Distinct (output dir i ext) input)
    (distinct : (i j : ℕ) → i ≢ j → files.Distinct (output dir i ext) (output dir j ext))
    (fds : List Fd) (root : Fd) where
  open sys use {World}
  open files use {content, Buffers, gathered, IsOpen, Distinct, transfers_keep}

  abbrev pub IsOutput : Fd → Type 0
  IsOutput fd = (i : ℕ) × (get_elem? fds i ≡ some fd)

  abbrev pub InUse : Fd → Type 0
  InUse fd = (fd ≡ root) ⊎ IsOutput fd

  -- The source is open for reading, the outputs for reading and writing.
  abbrev pub AllOpen : World → Type 0
  AllOpen w =
      IsOpen root input rdonly w
      × ((i : ℕ) (fd : Fd)
          → get_elem? fds i ≡ some fd
          → IsOpen fd (output dir i ext) rdwr_create_trunc w)

  -- What is open is of some file, and can be read from.
  pub record Readable (fd : Fd) (w : World) : Type 0 where
    pub name : FileName
    pub flags : OpenFlags
    pub is_open : IsOpen fd name flags w
    pub can_read : CanRead flags

  pub Readable-used : (fd : Fd) (w : World) → InUse fd → AllOpen w → Readable fd w
  Readable-used fd w (inl same) all = record {
    name = input;
    flags = rdonly;
    is_open = subst (λ g. IsOpen g input rdonly w) (sym same) all.0;
    can_read = tt;
  }
  Readable-used fd w (inr (i, e)) all = record {
    name = output dir i ext;
    flags = rdwr_create_trunc;
    is_open = all.1 i fd e;
    can_read = tt;
  }

  pub AllOpen-kept : Kept (file_io sys calls) chunk_size AllOpen
  AllOpen-kept =
      let at_root = transfers_keep root input rdonly in
      let at_ = λ (i : ℕ) (fd : Fd). transfers_keep fd (output dir i ext) rdwr_create_trunc in
      record {
        memalign_keeps = λ w w' p e h. (
          at_root.memalign_keeps w w' p e h.0,
          λ i fd g. (at_ i fd).memalign_keeps w w' p e (h.1 i fd g),
        );
        free_keeps =
            λ p w h. (at_root.free_keeps p w h.0, λ i fd g. (at_ i fd).free_keeps p w (h.1 i fd g));
        preadv_keeps = λ to vs off w h. (
          at_root.preadv_keeps to vs off w h.0,
          λ i fd g. (at_ i fd).preadv_keeps to vs off w (h.1 i fd g),
        );
        pwritev_keeps = λ to vs off w h. (
          at_root.pwritev_keeps to vs off w h.0,
          λ i fd g. (at_ i fd).pwritev_keeps to vs off w (h.1 i fd g),
        );
      }

  -- A write to one output leaves the source and the other outputs alone.
  pub others_kept :
      (w w' : World) (i : ℕ) (fd g : Fd)
      → AllOpen w
      → get_elem? fds i ≡ some fd
      → ((h : Fd) (other : FileName) (flags : OpenFlags)
          → IsOpen h other flags w
          → Distinct (output dir i ext) other
          → content h w' ≡ content h w)
      → InUse g
      → g ≢ fd
      → content g w' ≡ content g w
  others_kept w w' i fd g all e law (inl same) ne =
      law g input rdonly (subst (λ h. IsOpen h input rdonly w) (sym same) all.0) (apart i)
  others_kept w w' i fd g all e law (inr (j, e')) ne =
      law g (output dir j ext) rdwr_create_trunc (all.1 j g e')
        (distinct i j (λ same. ne (some_inj (sym e' ∙ ap (get_elem? fds) (sym same) ∙ e))))

  abbrev pub opened_reliable : Reliable (file_io sys calls) chunk_size
  opened_reliable = record {
    content = content;
    Usable = InUse;
    Writable = IsOutput;
    Ready = AllOpen;
    Buffers = Buffers;
    gathered = gathered;
    ready_kept = AllOpen-kept;
    fstat_size = λ fd w used all.
        let r = Readable-used fd w used all in files.fstat_size fd r.name r.flags w r.is_open;
    no_buffers = files.no_buffers;
    alloc = files.alloc;
    free_content = files.free_content;
    preadv_reads = λ fd vs off w used all b fits.
        let r = Readable-used fd w used all in
        files.preadv_reads fd r.name r.flags vs off w r.is_open r.can_read b fits;
    pwritev_writes = λ fd vs off w out all b reaches.
        let (w', e, wrote, law) =
          files.pwritev_writes fd (output dir out.0 ext) rdwr_create_trunc vs off w
            (all.1 out.0 fd out.1) tt b reaches in
        (w', e, wrote, λ g used ne. others_kept w w' out.0 fd g all out.1 law used ne);
  }

  pub opened-Group : (w : World) → AllOpen w → Group (file_io sys calls) opened_reliable root fds
  opened-Group w all = record {
    apart = (
      All-each (λ b. root ≢ b) fds
          (λ i b e same.
            files.open_apart b root (output dir i ext) input rdwr_create_trunc rdonly w
              (all.1 i b e) all.0 (apart i) (sym same)),
      Apart-each fds (λ i j a b e e' ne.
          files.open_apart a b (output dir i ext) (output dir j ext) rdwr_create_trunc
            rdwr_create_trunc w (all.1 i a e) (all.1 j b e') (distinct i j ne)),
    );
    usable = (inl refl, All-each InUse fds (λ i b e. inr (i, e)));
    writable = All-each IsOutput fds (λ i b e. (i, e));
  }
