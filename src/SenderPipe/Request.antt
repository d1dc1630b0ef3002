-- ===== src/SenderPipe/Request.antt =====
-- `read_file_request` as a whole, and what it does with the blocks that it allocates.
use independent_study.Base.{
  ℕ, suc, zero, ◌+◌, ◌-◌, ◌/◌, ◌≤◌, ◌≡◌, refl, ap, ◌∙◌, if◌then◌else◌, ◌==◌, List, [], ◌∷◌, length,
  map, none, some, Outcome, ok, ◌>>=◌, pos, is_negative, pos_part, arith, Option,
}
use independent_study.Base.Sums.{weigh}
use independent_study.Liburing.{Fd, Wait, Liburing}
use independent_study.IoHandle.FileSize.{Stat}
use independent_study.FileIo.{FileIo, Counting}
use independent_study.SenderPipe.{
  q_depth, block, aligned_size, file_size, setup_uring, read_loop, Exit, add_block, alloc_blocks,
  free_blocks, read_blocks, read_opened, read_file_request,
}
use independent_study.SenderPipe.Loop.{complete, bytes_of}
use independent_study.SenderPipe.Ends.{start, read_loop_lem}

-- How many blocks a file has.
abbrev pub blocks_of : ℕ → ℕ
blocks_of size = (size + block - 1) / block

-- How many of the blocks stand at an address.
abbrev count_at : ℕ → List ℕ → ℕ
count_at q = weigh (λ p. if p == q then 1 else 0)

abbrev one_of : ℕ → ℕ → ℕ → ℕ → ℕ → ℕ
one_of a b c d i = if i == 0 then a else if i == 1 then b else if i == 2 then c else d

four :
    (ps : List ℕ)
    → length ps ≡ 4
    → (buffer : ℕ → ℕ) × (ps ≡ buffer 0 ∷ buffer 1 ∷ buffer 2 ∷ buffer 3 ∷ [])
four [] h = absurd (omega (arith, h))
four (a ∷ []) h = absurd (omega (arith, h))
four (a ∷ b ∷ []) h = absurd (omega (arith, h))
four (a ∷ b ∷ c ∷ []) h = absurd (omega (arith, h))
four (a ∷ b ∷ c ∷ d ∷ []) h = (one_of a b c d, refl)
four (a ∷ b ∷ c ∷ d ∷ e ∷ ps) h = absurd (omega (arith, h))

module _ (io : FileIo) (counting : Counting io block) (open_file : io.World → Fd × io.World)
    (close_file : Fd → io.World → io.World) (u : Liburing ℕ) where
  open io use {World, fstat, posix_memalign, free}
  open counting use {held, alloc_holds, free_releases}
  open u use {Ring, queue_init}

  free_blocks-held :
      (ps : List ℕ) (w : World)
      → ((q : ℕ) → count_at q ps ≤ held q w)
      → (q : ℕ) → held q (free_blocks io open_file close_file u ps w) + count_at q ps ≡ held q w
  unfolding free_blocks
  free_blocks-held [] w owned q = omega arith
  free_blocks-held (p ∷ ps) w owned q =
      let mine : 1 ≤ held p w = ground (arith, owned p) in
      let rest =
        free_blocks-held ps (free p w) (λ r. omega (arith, owned r, free_releases p w r mine)) q in
      omega (arith, rest, free_releases p w q mine)

  module _
      (never_fails : (w : World)
        → (p : ℕ) × (w' : World) × (posix_memalign block block w ≡ some (p, w'))) where
    record Allocated (n : ℕ) (w : World) : Type 0 where
      places : List ℕ
      world : World
      result : alloc_blocks io open_file close_file u n w ≡ (some places, world)
      many : length places ≡ n
      holds : (q : ℕ) → held q world ≡ held q w + count_at q places

    alloc_blocks_lem : (n : ℕ) (w : World) → Allocated n w
    unfolding alloc_blocks add_block
    alloc_blocks_lem zero w = record {
      places = [];
      world = w;
      result = refl;
      many = refl;
      holds = λ q. omega arith;
    }
    alloc_blocks_lem (suc n) w =
        let (p, w', e) = never_fails w in
        let rest = alloc_blocks_lem n w' in
        record {
          places = p ∷ rest.places;
          world = rest.world;
          result = rw (e, alloc_blocks) (ap (add_block io open_file close_file u p) rest.result);
          many = ap suc rest.many;
          holds = λ q. omega (arith, rest.holds q, alloc_holds w w' p q e);
        }

  module _ (w w1 : World) (d size : ℕ) (st : Stat) (r : Ring) (init : queue_init q_depth ≡ some r)
      (opened : open_file w ≡ (pos d, w1)) (stat : fstat (pos d) w1 ≡ some st)
      (size_is : st.st_size ≡ pos size) where
    setup_ok : setup_uring u ≡ ok r
    unfolding setup_uring
    setup_ok = rw (init, setup_uring) refl

    sized : file_size (fstat (pos d) w1) ≡ pos size
    unfolding file_size
    sized = ap file_size stat ∙ size_is

    opened_lem :
        (ws : List (Wait ℕ)) (b : Option (List ℕ) × World)
        → alloc_blocks io open_file close_file u q_depth w1 ≡ b
        → read_file_request io open_file close_file u w ws
          ≡ read_blocks io open_file close_file u (pos d) size r ws b
    unfolding read_file_request setup_uring read_opened file_size
    opened_lem ws b e =
        let blocks_from : ℕ → Option (List ℕ) × World → Outcome (Exit World) =
          λ n b'. read_blocks io open_file close_file u (pos d) n r ws b' in
        ap (λ o. o >>= λ r'. read_opened io open_file close_file u r' ws (open_file w)) setup_ok
        ∙ ap (read_opened io open_file close_file u r ws) opened
        ∙ ap
            (λ z.
              if is_negative z
              then ok (record { status = 1; total_read = 0; world = w1 })
              else blocks_from (pos_part z) (alloc_blocks io open_file close_file u q_depth w1))
            sized
        ∙ ap (blocks_from size) e

    read_blocks_lem :
        (cs : List (ℕ × ℕ)) (places : List ℕ) (w2 : World)
        → length places ≡ q_depth
        → length cs ≡ blocks_of size
        → read_blocks io open_file close_file u (pos d) size r (map complete cs) (some places, w2)
          ≡ ok (record {
            status = 0;
            total_read = bytes_of cs;
            world = close_file (pos d) (free_blocks io open_file close_file u places w2);
          })
    unfolding read_blocks
    read_blocks_lem cs places w2 many all =
        let (buffer, shape) = four places many in
        let (s, e, total, order) = read_loop_lem u (pos d) buffer (blocks_of size) r cs init all in
        rw
          (
            ap (λ ps. read_loop u (pos d) ps (aligned_size size) (map complete cs) (start u r))
                  shape
                ∙ e,
            read_blocks,
          )
          (ap
            (λ t. ok (record {
              status = 0;
              total_read = t;
              world = close_file (pos d) (free_blocks io open_file close_file u places w2);
            }))
            total)

    module _
        (never_fails : (v : World)
          → (p : ℕ) × (v' : World) × (posix_memalign block block v ≡ some (p, v')))
        (open_holds : (q : ℕ) → held q w1 ≡ held q w)
        (close_holds : (v : World) (q : ℕ) → held q (close_file (pos d) v) ≡ held q v) where
      -- Where the ring is set up, the file is opened and its size is known, no allocation fails,
      -- opening and closing the file leave the blocks alone, and as many reads succeed as the file
      -- has blocks, `read_file_request` returns 0 with the sum of the bytes read, and has freed
      -- every block that it allocated, each once.
      pub read_file_request_lem :
          (cs : List (ℕ × ℕ))
          → length cs ≡ blocks_of size
          → (w' : World) × (read_file_request io open_file close_file u w (map complete cs)
              ≡ ok (record { status = 0; total_read = bytes_of cs; world = w' }))
            × ((q : ℕ) → held q w' ≡ held q w)
      read_file_request_lem cs all =
          let a = alloc_blocks_lem never_fails q_depth w1 in
          let freed = free_blocks-held a.places a.world (λ q. omega (arith, a.holds q)) in
          (
            close_file (pos d) (free_blocks io open_file close_file u a.places a.world),
            opened_lem (map complete cs) (some a.places, a.world) a.result
                ∙ read_blocks_lem cs a.places a.world a.many all,
            λ q. omega (arith, close_holds _ q, freed q, a.holds q, open_holds q),
          )

    -- Where the ring is set up, the file is opened and its size is known, the first allocation
    -- succeeds and the second fails, `read_file_request` returns 1 with no byte read, whatever the
    -- completions, and leaves the first block allocated.
    pub read_file_request_leaks :
        (ws : List (Wait ℕ)) (p : ℕ) (w2 : World)
        → posix_memalign block block w1 ≡ some (p, w2)
        → posix_memalign block block w2 ≡ none
        → (read_file_request io open_file close_file u w ws
            ≡ ok (record { status = 1; total_read = 0; world = w2 }))
          × (held p w2 ≡ held p w1 + 1)
    unfolding alloc_blocks add_block read_blocks
    read_file_request_leaks ws p w2 first second = (
      opened_lem ws (none, w2) (rw (first, alloc_blocks) (rw (second, alloc_blocks) refl)),
      ground (arith, alloc_holds w1 w2 p p first),
    )
