-- ===== src/ReadvTree/Nodes.antt =====
-- The nodes of the tree, and one copy between two of them.
use independent_study.Base.{
  [], subst, All, some_inj, ==_ne, append-nil, ℕ, zero, suc, ◌-◌, ◌%◌, ◌≤◌, ◌<◌, ◌≡◌, ◌≢◌, refl, ap,
  sym, ◌∙◌, ◌==◌, ==_iff, Bool-cases, inl, inr, List, ◌∷◌, ◌++◌, length, drop, get_elem?, some, ok,
  add_size, word_mod, arith,
}
use independent_study.Base.Slices.{drop_all}
use independent_study.Base.Orders.{All-get_elem?, All-each}
use independent_study.Liburing.{Fd}
use independent_study.FileIo.{FileIo, Reliable}
use independent_study.ReadvTree.{chunk_size, sender_fd, receiver_fd, copy_node}
use independent_study.ReadvTree.Copy.{submit_read_write_lem}

-- Node i of the tree.
abbrev pub Node : Fd → List Fd → ℕ → Fd → Type 0
Node root outs i fd = get_elem? (root ∷ outs) i ≡ some fd

-- No two descriptors of a list are the same.
abbrev pub Apart : List Fd → Type 0
Apart [] = Unit
Apart (a ∷ as') = All (λ b. a ≢ b) as' × Apart as'

Apart-get_elem? :
    (fds : List Fd) (i j : ℕ) (a b : Fd)
    → Apart fds
    → get_elem? fds i ≡ some a
    → get_elem? fds j ≡ some b
    → i ≢ j
    → a ≢ b
Apart-get_elem? [] i j a b h ea eb ne = cc
Apart-get_elem? (x ∷ xs) zero zero a b h ea eb ne = absurd (ne refl)
Apart-get_elem? (x ∷ xs) zero (suc j) a b h ea eb ne =
    subst (λ y. y ≢ b) (some_inj ea) (All-get_elem? (λ c. x ≢ c) xs j b h.0 eb)
Apart-get_elem? (x ∷ xs) (suc i) zero a b h ea eb ne =
    λ p. subst (λ y. y ≢ a) (some_inj eb) (All-get_elem? (λ c. x ≢ c) xs i a h.0 ea) (sym p)
Apart-get_elem? (x ∷ xs) (suc i) (suc j) a b h ea eb ne =
    Apart-get_elem? xs i j a b h.1 ea eb (λ p. ne (ap suc p))

pub Apart-each :
    (fds : List Fd)
    → ((i j : ℕ) (a b : Fd) → get_elem? fds i ≡ some a → get_elem? fds j ≡ some b → i ≢ j → a ≢ b)
    → Apart fds
Apart-each [] h = tt
Apart-each (x ∷ fds) h = (
  All-each (λ b. x ≢ b) fds (λ j b e. h 0 (suc j) x b refl e (λ s. absurd (omega (arith, s)))),
  Apart-each fds (λ i j a b e e' ne. h (suc i) (suc j) a b e e' (λ s. ne (omega (arith, s)))),
)

-- The source and the outputs are different descriptors in use, the outputs for writing.
pub record Group (io : FileIo) (rel : Reliable io chunk_size) (root : Fd) (outs : List Fd)
    : Type 0 where
  pub apart : Apart (root ∷ outs)
  pub usable : All rel.Usable (root ∷ outs)
  pub writable : All rel.Writable outs

module _ (io : FileIo) (rel : Reliable io chunk_size) (root : Fd) (outs : List Fd)
    (source : List ℕ) where
  open io use {World}
  open rel use {content, Usable, Writable, Ready}

  -- The files are open, and no node holds more than the source.
  abbrev pub Bounded : World → Type 0
  Bounded w =
      Ready w × ((i : ℕ) (fd : Fd) → Node root outs i fd → length (content fd w) ≤ length source)

  abbrev pub Holds : World → ℕ → Type 0
  Holds w i = (fd : Fd) → Node root outs i fd → content fd w ≡ source

  -- Whoever holds the source keeps it.
  abbrev pub Keeps : World → World → Type 0
  Keeps w w' = (i : ℕ) → Holds w i → Holds w' i

  sender_lem : (i : ℕ) (fd : Fd) → Node root outs i fd → sender_fd io root outs i ≡ ok fd
  unfolding sender_fd
  sender_lem zero fd e = ap ok (some_inj e)
  sender_lem (suc i) fd e =
      let before : suc i - 1 ≡ i = omega arith in
      rw (before, sender_fd) (rw (e, sender_fd) (ground arith))

  receiver_lem : (i : ℕ) (fd : Fd) → 0 < i → Node root outs i fd → receiver_fd io outs i ≡ ok fd
  unfolding receiver_fd
  receiver_lem zero fd h e = absurd (omega arith)
  receiver_lem (suc i) fd h e =
      let before : suc i - 1 ≡ i = omega arith in
      rw (before, receiver_fd) (rw (e, receiver_fd) refl)

  receiver_writable :
      All Writable outs → (i : ℕ) (fd : Fd) → 0 < i → Node root outs i fd → Writable fd
  receiver_writable all zero fd h e = absurd (omega arith)
  receiver_writable all (suc i) fd h e = All-get_elem? Writable outs i fd all e

  -- A copy from a node that holds the source to a later one.
  pub record Sent (sender receiver : ℕ) (moved : ℕ) (w : World) : Type 0 where
    pub world : World
    pub result :
        copy_node io root outs sender receiver (moved, w)
        ≡ ok (add_size moved (length source % word_mod), world)
    pub bounded : Bounded world
    pub keeps : Keeps w world
    pub holds : Holds world receiver

  pub copy_node_lem :
      Group io rel root outs
      → (sender receiver moved : ℕ) (w : World) (a b : Fd) → Node root outs sender a
      → Node root outs receiver b
      → sender < receiver
      → Bounded w
      → Holds w sender
      → Sent sender receiver moved w
  unfolding copy_node
  copy_node_lem group sender receiver moved w a b ea eb lt (ready, small) held =
      let apart = group.apart in
      let has : content a w ≡ source = held a ea in
      let writable : Writable b = receiver_writable group.writable receiver b (omega arith) eb in
      let (w', e, wrote, others, ready') =
        submit_read_write_lem io rel a b w
          (All-get_elem? Usable (root ∷ outs) sender a group.usable ea) writable ready
          (Apart-get_elem? (root ∷ outs) sender receiver a b apart ea eb
            (λ p. omega (arith, p, lt))) in
      let now : content b w' ≡ source =
        wrote
        ∙ ap (λ s. s ++ drop (length s) (content b w)) has
        ∙ ap (λ xs. source ++ xs) (drop_all (length source) (content b w) (small receiver b eb))
        ∙ append-nil source in
      let at_node : (i : ℕ) (fd : Fd)
          → Node root outs i fd
          → i ≡ receiver
          → content fd w' ≡ source =
        λ i fd en p.
          ap (λ f. content f w') (some_inj (sym en ∙ ap (get_elem? (root ∷ outs)) p ∙ eb)) ∙ now in
      let elsewhere : (i : ℕ) (fd : Fd)
          → Node root outs i fd
          → i ≢ receiver
          → content fd w' ≡ content fd w =
        λ i fd en ne.
          others fd (All-get_elem? Usable (root ∷ outs) i fd group.usable en)
            (Apart-get_elem? (root ∷ outs) i receiver fd b apart en eb ne) in
      record {
        world = w';
        result =
            rw (receiver_lem receiver b (omega arith) eb, copy_node)
              (rw (sender_lem sender a ea)
                (rw e (ap (λ n. ok (add_size moved (n % word_mod), w')) (ap length has))));
        bounded = (
          ready',
          λ i fd en. elim (Bool-cases (i == receiver)) [
            | inl p ↦ omega (arith, ap length (at_node i fd en ((==_iff i receiver).0 p)))
            | inr p ↦
                omega (arith, ap length (elsewhere i fd en (==_ne i receiver p)), small i fd en)
          ],
        );
        keeps = λ i h fd en. elim (Bool-cases (i == receiver)) [
          | inl p ↦ at_node i fd en ((==_iff i receiver).0 p)
          | inr p ↦ elsewhere i fd en (==_ne i receiver p) ∙ h fd en
        ];
        holds = λ fd en. at_node receiver fd en refl;
      }
