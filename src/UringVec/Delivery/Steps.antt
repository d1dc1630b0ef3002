-- ===== src/UringVec/Delivery/Steps.antt =====
-- The two requests of a window: the read fills its blocks, and the write puts them in the output.
use native.Mathlib.Decide.{dec_lt}
use independent_study.Base.{
  ℕ, ◌+◌, ◌-◌, ◌≤◌, ◌<◌, ◌≡◌, refl, ap, sym, subst, ◌∙◌, inl, inr, List, [], ◌∷◌, length, take,
  drop, replicate, get_elem?, get_elem?-append_left, length-append, length-replicate, length-take,
  length-drop, arith,
}
use independent_study.Base.Slices.{write_at}
use independent_study.Base.Positions.{
  get_elem?-part, get_elem?-end, write_at_before, write_at_inside, write_at_behind, length-write_at,
}
use independent_study.Liburing.{Fd, fd_cases, Sqe}
use independent_study.Kernel.{Kernel, padded}
use independent_study.Kernel.Vectors.{Vectors}
use independent_study.UringVec.{Data, read_sqe, write_sqe}
use independent_study.UringVec.Delivery.{
  Job, job_size, Stage, waiting, loaded, stored, IsReady, Spares, Moved,
}

length-padded :
    (off : ℕ) (file : List ℕ) → length (padded off file) ≡ length file + (off - length file)
length-padded off file = omega (
  arith,
  length-append file (replicate (off - length file) 0),
  length-replicate {A = ℕ} (off - length file) 0,
)

-- The items of the source that a file has stay, where a part of the source is written in it.
part_kept :
    (src bytes file : List ℕ) (off x : ℕ)
    → ((y : ℕ) → y < length bytes → get_elem? bytes y ≡ get_elem? src (off + y))
    → x < length src
    → get_elem? file x ≡ get_elem? src x
    → get_elem? (write_at off bytes (padded off file)) x ≡ get_elem? src x
part_kept src bytes file off x part lt e =
    let size = length-padded off file in
    let reaches : off ≤ length (padded off file) = omega (arith, size) in
    let there : get_elem? (padded off file) x ≡ get_elem? src x =
      get_elem?-append_left file _ x (get_elem?-end file src x lt e) ∙ e in
    elim (dec_lt x off) [
      | yes before ↦ write_at_before off bytes (padded off file) reaches x before ∙ there
      | no h ↦ elim (dec_lt x (off + length bytes)) [
        | no h' ↦ write_at_behind off bytes (padded off file) reaches x (omega arith) ∙ there
        | yes h' ↦
            let here : off + (x - off) ≡ x = omega arith in
            ap (get_elem? (write_at off bytes (padded off file))) (sym here)
            ∙ write_at_inside off bytes (padded off file) reaches (x - off) (omega arith)
            ∙ part (x - off) (omega arith)
            ∙ ap (get_elem? src) here
      ]
    ]

module _ (k : Kernel) (v : Vectors k) (input : Fd) (src : List ℕ) where
  open k use {World, run}
  open v use {content, gathered, readv_reads, writev_writes}

  module _ (j : Job) (ready : IsReady k v input src j) (w : World)
      (whole : content input w ≡ src) where
    pub reading :
        Moved k v input src j w
          (run (read_sqe input j.context j.at).request w)
          (write_sqe j.output j.context j.at ∷ [])
    unfolding Spares
    reading =
        let (filled, others, files) =
          readv_reads input j.context.iovecs j.at w ready.usable
            (omega (arith, ready.inside, ap length whole)) in
        record {
          stage = loaded refl (filled ∙ ap (λ c. take (job_size j) (drop j.at c)) whole);
          source_same = files input;
          lengths = λ g h. omega (arith, ap length (files g), h);
          spares = λ j' apart. (
            others j'.context.iovecs apart,
            λ there _ x lt. ap (λ c. get_elem? c (j'.at + x)) (files j'.output) ∙ there x lt,
          );
        }

    part_size : length (take (job_size j) (drop j.at src)) ≡ job_size j
    part_size =
        omega (arith, ready.inside, length-take (job_size j) (drop j.at src), length-drop j.at src)

    part_items :
        (bytes : List ℕ)
        → bytes ≡ take (job_size j) (drop j.at src)
        → (y : ℕ) → y < length bytes
        → get_elem? bytes y ≡ get_elem? src (j.at + y)
    part_items bytes e y lt =
        ap (λ b. get_elem? b y) e
        ∙ get_elem?-part j.at (job_size j) src y (omega (arith, ap length e, part_size))

    pub writing :
        gathered j.context.iovecs w ≡ take (job_size j) (drop j.at src)
        → Moved k v input src j w (run (write_sqe j.output j.context j.at).request w) []
    unfolding Spares
    writing full =
        let after = run (write_sqe j.output j.context j.at).request w in
        let bytes = gathered j.context.iovecs w in
        let file = content j.output w in
        let size : length bytes ≡ job_size j = ap length full ∙ part_size in
        let (put, files, blocks) =
          writev_writes j.output j.context.iovecs j.at w ready.usable size in
        let reaches : j.at ≤ length (padded j.at file) = omega (arith, length-padded j.at file) in
        record {
          stage = stored refl (λ x lt.
              ap (λ c. get_elem? c (j.at + x)) put
              ∙ write_at_inside j.at bytes (padded j.at file) reaches x (omega (arith, size))
              ∙ part_items bytes full x (omega (arith, size)));
          source_same = files input ready.away;
          lengths = λ g h. elim (fd_cases g j.output) [
            | inl same ↦
                let before : length file ≤ length src =
                  subst (λ f. length (content f w) ≤ length src) same h in
                let longest : length (write_at j.at bytes (padded j.at file)) ≤ length src =
                  length-write_at j.at bytes (padded j.at file) reaches (length src)
                    (omega (arith, length-padded j.at file, before, ready.inside))
                    (omega (arith, size, ready.inside)) in
                subst (λ f. length (content f after) ≤ length src) (sym same)
                  (subst (λ c. length c ≤ length src) (sym put) longest)
            | inr ne ↦ omega (arith, h, ap length (files g ne))
          ];
          spares = λ j' apart. (
            blocks j'.context.iovecs,
            λ there inside x lt. elim (fd_cases j'.output j.output) [
              | inl same ↦
                  ap (λ g. get_elem? (content g after) (j'.at + x)) same
                  ∙ ap (λ c. get_elem? c (j'.at + x)) put
                  ∙ part_kept src bytes file j.at (j'.at + x) (part_items bytes full)
                      (omega (arith, inside))
                      (ap (λ g. get_elem? (content g w) (j'.at + x)) (sym same) ∙ there x lt)
              | inr ne ↦ ap (λ c. get_elem? c (j'.at + x)) (files j'.output ne) ∙ there x lt
            ],
          );
        }

    pub advance :
        (q : List (Sqe Data)) (s : Sqe Data) (rest : List (Sqe Data))
        → Stage k v input src j w q
        → q ≡ s ∷ rest
        → Moved k v input src j w (run s.request w) rest
    advance q s rest (waiting e) next =
        let head : read_sqe input j.context j.at ≡ s = cc in
        let tail : write_sqe j.output j.context j.at ∷ [] ≡ rest = cc in
        subst (λ x. Moved k v input src j w (run x.request w) rest) head
          (subst (Moved k v input src j w _) tail reading)
    advance q s rest (loaded e full) next =
        let head : write_sqe j.output j.context j.at ≡ s = cc in
        let tail : [] ≡ rest = cc in
        subst (λ x. Moved k v input src j w (run x.request w) rest) head
          (subst (Moved k v input src j w _) tail (writing full))
    advance q s rest (stored e there) next = cc
