-- ===== src/Broadcaster/Idle.antt =====
-- What the rounds of the event loop keep, and the rounds that start a read or nothing.

use independent_study.Base.{
  ◌&&◌, not, ℕ, ◌+◌, ◌-◌, ◌≤◌, ◌≡◌, ◌≢◌, refl, ◌⊎◌, inl, inr, true, false, ◌==◌, List, [], ◌∷◌,
  ◌++◌, length, Outcome, ok, fail, Bool-cases, arith,
}
use independent_study.Base.Sums.{weigh-append}
use independent_study.Liburing.{Fd}
use independent_study.Broadcaster.{
  Flight, Loop, Reaction, stop, continue, start_read, drop_client, erase_fd, is_empty,
}
use independent_study.Broadcaster.Counts.{read_weight, write_weight, reads, writes}

-- The loop waits for the writes that are in flight, and reads only when none is.
pub record Inv (l : Loop) (fl : List Flight) : Type 0 where
  pub pending : l.writes_pending ≡ writes fl
  pub alternate : (reads fl ≡ 0) ⊎ ((reads fl ≡ 1) × (writes fl ≡ 0))
  pub alive : (l.output_fds ≢ []) → 1 ≤ reads fl + writes fl

-- `handle` takes `q` out of what is in flight and adds what the reaction submits.
abbrev pub After : List Flight → Outcome Reaction → Type 0
After rest (ok (continue l new)) = Inv l (rest ++ new)
After rest (ok (stop l)) = Unit
After rest (fail e) = Unit

pub length-ne-nil : (fds : List Fd) → fds ≢ [] → 1 ≤ length fds
length-ne-nil [] ne = absurd (ne refl)
length-ne-nil (fd ∷ fds) ne = omega arith

pub not_one : (n : ℕ) → (n == 1) ≡ false → n ≢ 1
not_one n e = ground arith

idle_of : (n : ℕ) (fds : List Fd) → (n == 1) && not (is_empty fds) ≡ true → (n ≡ 1) × (fds ≢ [])
idle_of n [] e = ground (arith, e)
idle_of n (fd ∷ fds) e = (ground arith, λ z. cc)

busy_of : (n : ℕ) (fds : List Fd) → (n == 1) && not (is_empty fds) ≡ false → fds ≢ [] → n ≢ 1
busy_of n [] e ne = absurd (ne refl)
busy_of n (fd ∷ fds) e ne = ground arith

module _ (entries : ℕ) (before after : List Flight) where
  pub split_writes :
      (f : Flight)
      → writes (before ++ f ∷ after) ≡ write_weight f.request.type + writes (before ++ after)
  split_writes f = omega (
    arith,
    weigh-append (λ (g : Flight). write_weight g.request.type) before (f ∷ after),
    weigh-append (λ (g : Flight). write_weight g.request.type) before after,
  )

  pub split_reads :
      (f : Flight)
      → reads (before ++ f ∷ after) ≡ read_weight f.request.type + reads (before ++ after)
  split_reads f = omega (
    arith,
    weigh-append (λ (g : Flight). read_weight g.request.type) before (f ∷ after),
    weigh-append (λ (g : Flight). read_weight g.request.type) before after,
  )

  pub more_writes :
      (new : List Flight)
      → writes ((before ++ after) ++ new) ≡ writes (before ++ after) + writes new
  more_writes new = weigh-append (λ (g : Flight). write_weight g.request.type) (before ++ after) new

  pub more_reads :
      (new : List Flight) → reads ((before ++ after) ++ new) ≡ reads (before ++ after) + reads new
  more_reads new = weigh-append (λ (g : Flight). read_weight g.request.type) (before ++ after) new

  -- Nothing left in flight: the next read may start.
  pub start_read_Inv :
      (l : Loop)
      → l.writes_pending ≡ 0
      → writes (before ++ after) ≡ 0
      → reads (before ++ after) ≡ 0
      → After (before ++ after) (start_read entries l)
  unfolding start_read
  start_read_Inv l p w r = elim (Bool-cases (entries == 0)) [
    | inl e ↦ rw (e, start_read) tt
    | inr e ↦
        rw (e, start_read)
          (record {
            pending = omega (arith, more_writes _, p, w);
            alternate = inr (omega (arith, more_reads _, r), omega (arith, more_writes _, w));
            alive = λ _. omega (arith, more_reads _);
          })
  ]

  -- The requests that stay in flight when nothing is submitted.
  pub keep_Inv :
      (l : Loop)
      → l.writes_pending ≡ writes (before ++ after)
      → reads (before ++ after) ≡ 0
      → ((l.output_fds ≢ []) → 1 ≤ writes (before ++ after))
      → Inv l ((before ++ after) ++ [])
  keep_Inv l p r a = record {
    pending = omega (arith, more_writes [], p);
    alternate = inl (omega (arith, more_reads [], r));
    alive = λ ne. omega (arith, more_writes [], a ne);
  }

  pub drop_client_Inv :
      (l : Loop) (fd : Fd)
      → l.writes_pending ≡ 1 + writes (before ++ after)
      → reads (before ++ after) ≡ 0
      → After (before ++ after) (drop_client entries l fd)
  unfolding drop_client
  drop_client_Inv l fd p r =
      elim (Bool-cases ((l.writes_pending == 1) && not (is_empty (erase_fd fd l.output_fds)))) [
        | inl e ↦
            rw (e, drop_client)
              (start_read_Inv
                (record l {
                  output_fds = erase_fd fd l.output_fds;
                  writes_pending = l.writes_pending - 1;
                })
                (omega (arith, (idle_of _ _ e).0)) (omega (arith, (idle_of _ _ e).0, p)) r)
        | inr e ↦
            rw (e, drop_client)
              (keep_Inv _ (omega (arith, p)) r (λ ne. omega (arith, busy_of _ _ e ne, p)))
      ]
