-- ===== src/Main/Copies/Tests.antt =====
-- `main` in mode 1 on a concrete input, on a system whose `open` returns a new descriptor each time.
use mathlib.Core.List.Perm
use independent_study.Base.{
  ℕ, ◌+◌, ◌-◌, ◌^◌, ◌<◌, ◌≡◌, ◌≢◌, refl, ap, sym, ◌∙◌, ◌==◌, ==_iff, if◌then◌else◌, List, [], ◌∷◌,
  none, some, some_inj, subst, ok, ℤ, pos, negsuc, pos_part, arith,
}
use independent_study.Base.Orders.{below}
use independent_study.Liburing.{Fd}
use independent_study.IoHandle.{Name}
use independent_study.FileIo.Sim.{
  Disk, disk_io, disk_reads, disk_writes, gather, Buffers, Ascending-snoc, write_file,
  write_file_self, write_file_ne,
}
use independent_study.Main.{
  FileName, argument, directory, output, fifo, OpenFlags, rdonly, rdwr, rdwr_create_trunc,
  wronly_create_trunc, System, Engines, returned,
}
use independent_study.Main.Program.{main}
use independent_study.Main.Files.{CopyCalls, Files}
use independent_study.Main.Copies.{tree_engines, main_copies}

-- The files with the memory, which file a descriptor is of, and the next descriptor.
record Table : Type 0 where
  disk : Disk
  opened : ℕ → Fd
  next_fd : ℕ

-- Where the disk has the file of a name; directories do not matter.
abbrev file_named : FileName → Fd
file_named (argument name) = pos 1
file_named (directory dir) = pos 0
file_named (output dir i ext) = pos (i + 2)
file_named (fifo dir i) = pos 0

abbrev file_of : Fd → (ℕ → Fd) → Fd
file_of (pos d) opened = opened d
file_of (negsuc d) opened = negsuc 0

abbrev truncated : Fd → Disk → Disk
truncated fd w = record w { files = write_file fd [] w.files }

abbrev opened_disk : Fd → OpenFlags → Disk → Disk
opened_disk fd rdonly w = w
opened_disk fd rdwr w = w
opened_disk fd rdwr_create_trunc w = truncated fd w
opened_disk fd wronly_create_trunc w = truncated fd w

-- A number is given by its first digit.
abbrev first_digit : Name → ℤ
first_digit [] = pos 0
first_digit (c ∷ cs) = pos (c - 48)

abbrev opens_next : FileName → OpenFlags → Table → Table
opens_next name flags w = record {
  disk = opened_disk (file_named name) flags w.disk;
  opened = λ d. if d == w.next_fd then file_named name else w.opened d;
  next_fd = w.next_fd + 1;
}

abbrev table_system : System
table_system = record {
  World = Table;
  open_file = λ name flags w. (pos w.next_fd, opens_next name flags w);
  dup = λ fd w. (fd, w);
  close = λ fd w. w;
  set_pipe_size = λ fd bytes w. w;
  mkfifo = λ name w. (none, w);
  unlink = λ name w. w;
  create_directories = λ name w. some w;
  atoi = first_digit;
  extension = λ name. [];
}

abbrev table_calls : CopyCalls Table
table_calls = record {
  fstat = λ fd w. disk_io.fstat (file_of fd w.opened) w.disk;
  blkgetsize64 = λ fd w. none;
  posix_memalign = λ alignment size w.
      some (w.disk.next, record w { disk = record w.disk { next = w.disk.next + 1 } });
  free = λ p w. record w { disk = disk_io.free p w.disk };
  preadv = λ fd vs off w.
      let r = disk_io.preadv (file_of fd w.opened) vs off w.disk in (r.0, record w { disk = r.1 });
  pwritev = λ fd vs off w.
      let r = disk_io.pwritev (file_of fd w.opened) vs off w.disk in (r.0, record w { disk = r.1 });
}

-- A descriptor is open on the file of a name when it was returned for it.
abbrev OpenOn : Fd → FileName → Table → Type 0
OpenOn fd name w =
    (d : ℕ) × (fd ≡ pos d) × (d < w.next_fd) × (file_of fd w.opened ≡ file_named name)

OpenOn-new :
    (name : FileName) (flags : OpenFlags) (w : Table)
    → OpenOn (pos w.next_fd) name (opens_next name flags w)
OpenOn-new name flags w =
    (w.next_fd, refl, omega arith, rw ((==_iff w.next_fd w.next_fd).1 refl) refl)

earlier :
    (d n : ℕ) (fd : Fd) (opened : ℕ → Fd) → d < n → (if d == n then fd else opened d) ≡ opened d
earlier d n fd opened lt = ground arith

OpenOn-earlier :
    (name : FileName) (flags : OpenFlags) (w : Table) (g : Fd) (other : FileName)
    → OpenOn g other w
    → OpenOn g other (opens_next name flags w)
OpenOn-earlier name flags w g other (d, e, lt, f) =
    let w' = opens_next name flags w in
    (
      d,
      e,
      omega (arith, lt),
      ap (λ h. file_of h w'.opened) e
          ∙ earlier d w.next_fd (file_named name) w.opened lt
          ∙ sym (ap (λ h. file_of h w.opened) e)
          ∙ f,
    )

opened_others :
    (fd : Fd) (flags : OpenFlags) (w : Disk) (other : Fd)
    → fd ≢ other
    → (opened_disk fd flags w).files other ≡ w.files other
opened_others fd rdonly w other ne = refl
opened_others fd rdwr w other ne = refl
opened_others fd rdwr_create_trunc w other ne = write_file_ne fd other [] w.files (λ e. ne (sym e))
opened_others fd wronly_create_trunc w other ne =
    write_file_ne fd other [] w.files (λ e. ne (sym e))

abbrev table_files : Files table_system table_calls
table_files = record {
  stored = λ name w. w.disk.files (file_named name);
  content = λ fd w. w.disk.files (file_of fd w.opened);
  Buffers = λ vs w. Buffers vs w.disk;
  gathered = λ vs w. gather vs w.disk.memory;
  IsFile = λ name. Unit;
  Distinct = λ name other. file_named name ≢ file_named other;
  IsOpen = λ fd name flags w. OpenOn fd name w;
  open_content = λ fd name flags w h. ap w.disk.files h.3;
  open_apart = λ fd g name other flags flags' w h h' ne same.
      ne (sym h.3 ∙ ap (λ x. file_of x w.opened) same ∙ h'.3);
  opens = λ name flags w a_file e. OpenOn-new name flags w;
  open_keeps = λ name flags w g other flags' h. OpenOn-earlier name flags w g other h;
  truncates = λ name w a_file e. write_file_self (file_named name) [] w.disk.files;
  open_stored =
      λ name flags w other ne. opened_others (file_named name) flags w.disk (file_named other) ne;
  rdonly_stored = λ name w. refl;
  create_stored = λ name w w' e. (
    λ other. ap (λ (v : Table). v.disk.files (file_named other)) (sym (some_inj e)),
    λ g other flags h. subst (OpenOn g other) (some_inj e) h,
  );
  close_stored = λ fd w name. refl;
  transfers_keep = λ fd name flags. record {
    memalign_keeps =
        λ w w' p e h. subst (OpenOn fd name) (ap (λ (r : ℕ × Table). r.1) (some_inj e)) h;
    free_keeps = λ p w h. h;
    preadv_keeps = λ g vs off w h. h;
    pwritev_keeps = λ g vs off w h. h;
  };
  fstat_size = λ fd name flags w h. refl;
  no_buffers = λ w. omega arith;
  alloc = λ vs w len b h. (
    w.disk.next,
    record w { disk = record w.disk { next = w.disk.next + 1 } },
    refl,
    Ascending-snoc 0 vs w.disk.next len b,
    λ fd. refl,
  );
  free_content = λ p w fd. refl;
  preadv_reads = λ fd name flags vs off w h can b fits.
      let (d, e, kept, read, others) = disk_reads (file_of fd w.opened) vs off w.disk b fits in
      (
        record w { disk = d },
        ap (λ (r : ℤ × Disk). (r.0, record w { disk = r.1 })) e,
        kept,
        read,
        λ g. others (file_of g w.opened),
      );
  pwritev_writes = λ fd name flags vs off w h can b reaches.
      let (d, e, wrote, others) = disk_writes (file_of fd w.opened) vs off w.disk in
      (
        record w { disk = d },
        ap (λ (r : ℤ × Disk). (r.0, record w { disk = r.1 })) e,
        wrote,
        λ g other flags' h' ne.
            others (file_of g w.opened) (λ same. ne (sym h.3 ∙ sym same ∙ h'.3)),
      );
}

abbrev idle : Engines Table
idle = record {
  readv = λ source dests w. returned 0 w;
  uring = λ source dests w. returned 0 w;
  splice = λ source dests writes reads w. returned 0 w;
  tee = λ source input_w input_r dests writes reads w. returned 0 w;
}

abbrev bytes : List ℕ
bytes = 7 ∷ 8 ∷ 9 ∷ []

-- Three descriptors are taken.
abbrev table : Table
table = record {
  disk = record {
    files = λ fd. elim fd [ pos n ↦ if n == 1 then bytes else 1 ∷ [] | negsuc n ↦ [] ];
    next = 0;
    memory = λ p. [];
    live = λ p. 0;
  };
  opened = λ d. pos 0;
  next_fd = 3;
}

-- The program's name, mode 1, the input's name, and two outputs.
abbrev arguments : List Name
arguments = [] ∷ (49 ∷ []) ∷ (97 ∷ []) ∷ (50 ∷ []) ∷ []

main_copies_example :
    (w' : Table) × (main table_system
        (tree_engines table_system table_calls (λ round. below (2 ^ round)) (λ n. 2) idle)
        arguments
        table
      ≡ ok (0, w'))
    × ((i : ℕ) → i < 2 → w'.disk.files (pos (i + 2)) ≡ bytes)
main_copies_example =
    main_copies table_system table_calls table_files (λ round. below (2 ^ round))
      (λ round. Perm.refl _) (λ n. 2) idle [] (49 ∷ []) (97 ∷ []) (50 ∷ []) [] 2 bytes table refl
      refl (λ i same. absurd (omega (arith, ap pos_part same)))
      (λ i j ne same. ne (omega (arith, ap pos_part same))) tt (λ i. tt) refl (λ name v. (v, refl))
      (λ i v. refl) (omega arith) (omega arith) refl
