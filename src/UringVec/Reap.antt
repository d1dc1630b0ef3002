-- ===== src/UringVec/Reap.antt =====
-- The completions that `perform_uring_broadcast` waits for, and the total that it returns.
use independent_study.Base.{
  ℕ, suc, ◌+◌, ◌%◌, ◌<◌, ◌≡◌, refl, ap, sym, ◌∙◌, List, [], ◌∷◌, ◌++◌, map, Option-cases, inl, inr,
  none, some, ok, le→ltb, lt→ltb, ℤ, pos, negsuc, word_mod, arith,
}
use independent_study.Base.Sums.{weigh}
use independent_study.Liburing.{Cqe, got}
use independent_study.UringVec.{RequestContext, Data, count_cqe, free_pointers, reap}
use independent_study.UringVec.Context.{data_pointers}

-- How many completions carry a context.
unfoldable pub carrying : List (Cqe Data) → ℕ
carrying [] = 0
carrying (c ∷ cs) = elim c.user_data [ none ↦ carrying cs | some _ ↦ suc (carrying cs) ]

-- The bytes of a completion: those of its context, if it has one and the write did not fail.
abbrev pub written_by : Data → ℤ → ℕ
written_by none res = 0
written_by (some ctx) (pos n) = ctx.bytes
written_by (some ctx) (negsuc n) = 0

abbrev pub bytes_written : List (Cqe Data) → ℕ
bytes_written = weigh (λ c. written_by c.user_data c.res)

-- The blocks that the contexts of the completions own, in the order of the completions.
abbrev pub owned_blocks : List (Cqe Data) → List ℕ
owned_blocks [] = []
owned_blocks (c ∷ cs) = data_pointers c.user_data ++ owned_blocks cs

-- Blocks that are freed one after the other.
abbrev pub freed : {Heap : Type 0} → (ℕ → Heap → Heap) → List ℕ → Heap → Heap
freed free [] h = h
freed free (p ∷ ps) h = freed free ps (free p h)

-- What the loop of the code adds and frees, which is shown below to be these.
unfoldable tally : ℕ → List (Cqe Data) → ℕ
tally total [] = total
tally total (c ∷ cs) =
    tally (elim c.user_data [ none ↦ total | some ctx ↦ count_cqe total ctx c.res ]) cs

count_cqe-written :
    (total : ℕ) (ctx : RequestContext) (res : ℤ)
    → total < word_mod
    → (count_cqe total ctx res ≡ (total + written_by (some ctx) res) % word_mod)
unfolding count_cqe
count_cqe-written total ctx (pos n) lt = refl
count_cqe-written total ctx (negsuc n) lt = omega arith

tally-bytes_written :
    (total : ℕ) (cs : List (Cqe Data))
    → total < word_mod
    → tally total cs ≡ (total + bytes_written cs) % word_mod
unfolding tally
tally-bytes_written total [] lt = omega arith
tally-bytes_written total (c ∷ cs) lt = elim (Option-cases c.user_data) [
  | inl e ↦ rw (e, tally) (omega (arith, tally-bytes_written total cs lt))
  | inr (x, e) ↦
      let one = count_cqe-written total x c.res lt in
      rw (e, tally)
        (omega (arith, one, tally-bytes_written (count_cqe total x c.res) cs (omega (arith, one))))
]

tally_none : (total : ℕ) (cs : List (Cqe Data)) → carrying cs ≡ 0 → tally total cs ≡ total
unfolding carrying tally
tally_none total [] h = refl
tally_none total (c ∷ cs) h = elim (Option-cases c.user_data) [
  | inl e ↦ ground (arith, e, tally_none total cs)
  | inr (x, e) ↦ ground (arith, e)
]

module _ {Heap : Type 0} (free : ℕ → Heap → Heap) where
  freed-append :
      (ps qs : List ℕ) (h : Heap) → freed free (ps ++ qs) h ≡ freed free qs (freed free ps h)
  freed-append [] qs h = refl
  freed-append (p ∷ ps) qs h = freed-append ps qs (free p h)

  freed-free_pointers : (ps : List ℕ) (h : Heap) → free_pointers free ps h ≡ freed free ps h
  unfolding free_pointers
  freed-free_pointers [] h = refl
  freed-free_pointers (p ∷ ps) h = freed-free_pointers ps (free p h)

  none_owned : (cs : List (Cqe Data)) → carrying cs ≡ 0 → owned_blocks cs ≡ []
  unfolding carrying
  none_owned [] e = refl
  none_owned (c ∷ cs) e = elim (Option-cases c.user_data) [
    | inl d ↦ ground (arith, d, none_owned cs)
    | inr (x, d) ↦ ground (arith, d)
  ]

  reap-tally :
      (expected completed total : ℕ) (h : Heap) (cs : List (Cqe Data))
      → completed + carrying cs ≡ expected
      → reap free expected completed total h (map got cs)
        ≡ ok (tally total cs, freed free (owned_blocks cs) h)
  unfolding reap carrying tally
  reap-tally expected completed total h [] e = rw (le→ltb completed expected (omega arith)) refl
  reap-tally expected completed total h (c ∷ cs) e = elim (Option-cases c.user_data) [
    | inl d ↦
        ground
          (arith, d, tally_none total cs, none_owned cs, reap-tally expected completed total h cs)
    | inr (x, d) ↦
        let total' = count_cqe total x c.res in
        let more : completed + 1 + carrying cs ≡ expected = ground (arith, d, e) in
        let rest =
          reap-tally expected (completed + 1) total' (free_pointers free x.raw_pointers h) cs
            more in
        let heap : freed free (owned_blocks cs) (free_pointers free x.raw_pointers h)
            ≡ freed free (x.raw_pointers ++ owned_blocks cs) h =
          ap (freed free (owned_blocks cs)) (freed-free_pointers x.raw_pointers h)
          ∙ sym (freed-append x.raw_pointers (owned_blocks cs) h) in
        rw (lt→ltb completed expected (omega (arith, more)))
          (rw d (rest ∙ ap (λ g. ok (tally total' cs, g)) heap))
  ]

  -- With as many contexts among the completions as the loop expects, in any order and with any
  -- results, and a total below 2 ^ 64, it ends, has added the bytes of all contexts whose write did
  -- not fail, modulo 2 ^ 64, and has freed the blocks of all contexts, in the order of the
  -- completions.
  pub reap_all :
      (expected completed total : ℕ) (h : Heap) (cs : List (Cqe Data))
      → completed + carrying cs ≡ expected
      → total < word_mod
      → reap free expected completed total h (map got cs)
        ≡ ok ((total + bytes_written cs) % word_mod, freed free (owned_blocks cs) h)
  reap_all expected completed total h cs e lt =
      reap-tally expected completed total h cs e
      ∙ ap (λ n. ok (n, freed free (owned_blocks cs) h)) (tally-bytes_written total cs lt)
