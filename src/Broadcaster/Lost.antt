-- ===== src/Broadcaster/Lost.antt =====
-- What becomes of the event loop when all of its clients go.
use independent_study.Base.{
  ℕ, suc, ◌-◌, ◌≤◌, ◌<◌, ◌≡◌, ◌≢◌, ◌⊎◌, inl, inr, refl, ap, ◌∙◌, ◌==◌, Bool-cases, leb, true, false,
  List, [], ◌∷◌, ◌++◌, append-nil, length, map, All, ok, fail, blocked, ℤ, pos, negsuc, arith,
}
use independent_study.Liburing.{Fd, fd_eq, fd_eq_iff}
use independent_study.Broadcaster.{
  read, write, Request, Flight, Loop, Event, completes, continue, eagain, drop_client, on_error,
  handle, erase_fd, event_loop,
}
use independent_study.Broadcaster.FanOut.{fan_out, read_fans_out}

ne_== : (a b : ℕ) → a ≢ b → (a == b) ≡ false
ne_== a b ne = ground (arith, ne)

abbrev Has : Fd → List Fd → Type 0
Has h [] = ⊥
Has h (fd ∷ fds) = (h ≡ fd) ⊎ Has h fds

Has-later : (h fd : Fd) (fds : List Fd) → fd_eq h fd ≡ false → Has h (fd ∷ fds) → Has h fds
Has-later h fd fds e (inl same) = let yes = (fd_eq_iff h fd).1 same in cc
Has-later h fd fds e (inr later) = later

-- Who is left when a client is dropped is one of the later ones.
erase_fd_left :
    (fd : Fd) (fds outs : List Fd)
    → All (λ h. Has h (fd ∷ fds)) outs
    → All (λ h. Has h fds) (erase_fd fd outs)
unfolding erase_fd
erase_fd_left fd fds [] a = tt
erase_fd_left fd fds (h ∷ outs) (here, a) = elim (Bool-cases (fd_eq h fd)) [
  | inl e ↦ rw (e, erase_fd) (erase_fd_left fd fds outs a)
  | inr e ↦ rw (e, erase_fd) (Has-later h fd fds e here, erase_fd_left fd fds outs a)
]

none_left : (outs : List Fd) → All (λ h. Has h []) outs → outs ≡ []
none_left [] a = refl
none_left (h ∷ outs) a = absurd a.0

All-Has :
    (fds more : List Fd) → All (λ h. Has h more) fds → (x : Fd) → All (λ h. Has h (x ∷ more)) fds
All-Has [] more a x = tt
All-Has (h ∷ fds) more a x = (inr a.0, All-Has fds more a.1 x)

own : (fds : List Fd) → All (λ h. Has h fds) fds
own [] = tt
own (fd ∷ fds) = (inl refl, All-Has fds fds (own fds) fd)

-- The first write in flight fails with the error `suc n`.
abbrev pub failing : ℕ → Event
failing n = completes 0 (negsuc n)

module _ (entries : ℕ) where
  drop_last :
      (l : Loop) (fd : Fd)
      → l.writes_pending ≡ 1
      → erase_fd fd l.output_fds ≡ []
      → drop_client entries l fd
        ≡ ok (continue (record l { output_fds = []; writes_pending = 0 }) [])
  unfolding drop_client
  drop_last l fd p gone =
      let left : l.writes_pending - 1 ≡ 0 = omega (arith, p) in ground (arith, gone, left, p)

  drop_earlier :
      (l : Loop) (fd : Fd)
      → 2 ≤ l.writes_pending
      → drop_client entries l fd
        ≡ ok (
            continue
              (record l {
                output_fds = erase_fd fd l.output_fds;
                writes_pending = l.writes_pending - 1;
              })
              [])
  unfolding drop_client
  drop_earlier l fd p =
      let busy : (l.writes_pending == 1) ≡ false = ground (arith, p) in rw (busy, drop_client)

  failed_write :
      (l : Loop) (q : Request) (n : ℕ)
      → q.type ≡ write
      → suc n ≢ eagain
      → handle entries l q (negsuc n) ≡ drop_client entries l q.file
  unfolding handle on_error
  failed_write l q n t bad = rw (ne_== (suc n) eagain bad, on_error) (rw t refl)

  -- The first request in flight completes, and the loop goes on.
  goes_on :
      (f : Flight) (fl new : List Flight) (res : ℤ) (es : List Event) (l l' : Loop)
      → handle entries l f.request res ≡ ok (continue l' new)
      → event_loop entries (completes 0 res ∷ es) l (f ∷ fl) ≡ event_loop entries es l' (fl ++ new)
  unfolding event_loop
  goes_on f fl new res es l l' e = rw (e, event_loop) refl

  -- The first request in flight is a write and fails.
  next_fails :
      (f : Flight) (n : ℕ) (fl : List Flight) (es : List Event) (l l' : Loop)
      → f.request.type ≡ write
      → suc n ≢ eagain
      → drop_client entries l f.request.file ≡ ok (continue l' [])
      → event_loop entries (failing n ∷ es) l (f ∷ fl) ≡ event_loop entries es l' fl
  next_fails f n fl es l l' t bad e =
      goes_on f fl [] (negsuc n) es l l' (failed_write l f.request n t bad ∙ e)
      ∙ ap (event_loop entries es l') (append-nil fl)

  -- One write after the other fails: the last failure leaves no client, and starts no read.
  writes_fail :
      (buffer res : ℕ) (fds : List Fd) (ns : List ℕ) (es : List Event) (l : Loop)
      → 0 < length fds
      → length ns ≡ length fds
      → All (λ n. suc n ≢ eagain) ns
      → l.writes_pending ≡ length fds
      → All (λ h. Has h fds) l.output_fds
      → event_loop entries (map failing ns ++ es) l (fan_out buffer res fds)
        ≡ event_loop entries es (record l { output_fds = []; writes_pending = 0 }) []
  writes_fail buffer res [] ns es l some_client many bad pending left = absurd (omega arith)
  writes_fail buffer res (fd ∷ fds) [] es l some_client many bad pending left = absurd (omega arith)
  writes_fail buffer res (fd ∷ []) (n ∷ n' ∷ ns) es l some_client many bad pending left =
      absurd (omega arith)
  writes_fail buffer res (fd ∷ []) (n ∷ []) es l some_client many bad pending left =
      next_fails _ n [] es l _ refl bad.0 (
        drop_last l fd pending
          (none_left (erase_fd fd l.output_fds) (erase_fd_left fd [] l.output_fds left)))
  writes_fail buffer res (fd ∷ fd' ∷ fds) (n ∷ ns) es l some_client many bad pending left =
      next_fails _ n (fan_out buffer res (fd' ∷ fds)) (map failing ns ++ es) l _ refl bad.0
        (drop_earlier l fd (omega arith))
      ∙ writes_fail buffer res (fd' ∷ fds) ns es
          (record l {
            output_fds = erase_fd fd l.output_fds;
            writes_pending = l.writes_pending - 1;
          })
          (omega arith) (omega arith) bad.1 (omega (arith, pending))
          (erase_fd_left fd (fd' ∷ fds) l.output_fds left)

  -- Let a read of at least one byte complete, with at least one client and no more than the queue
  -- has entries, and then the write for each client in turn fail for another reason than EAGAIN.
  -- Then the loop neither ends nor reads on: it waits for ever for a completion, with nothing in
  -- flight.
  pub last_client_hangs :
      (l : Loop) (f : Flight) (res : ℕ) (ns : List ℕ) (es : List Event)
      → f.request.type ≡ read
      → 0 < res
      → 0 < length l.output_fds
      → length l.output_fds ≤ entries
      → length ns ≡ length l.output_fds
      → All (λ n. suc n ≢ eagain) ns
      → event_loop entries
          (completes 0 (pos res) ∷ map failing ns ++ completes 0 (pos res) ∷ es)
          l
          (f ∷ [])
        ≡ fail blocked
  unfolding event_loop
  last_client_hangs l f res ns es t some_bytes some_client fit many bad =
      let clients = l.output_fds in
      let not_end : (res == 0) ≡ false = ground arith in
      let room : leb (length clients) entries ≡ true = ground arith in
      let read_all = read_fans_out entries l f.request res t ∙ rw not_end (rw room refl) in
      goes_on f [] _ (pos res) _ l _ read_all
      ∙ writes_fail f.request.buffer res clients ns (completes 0 (pos res) ∷ es)
          (record l { writes_pending = length clients }) some_client many bad refl (own clients)
