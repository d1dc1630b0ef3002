-- ===== src/Server/Balance.antt =====
-- The status of `server_socket`, and the descriptors that are open behind it.
use independent_study.Base.{
  ℕ, ◌+◌, ◌≤◌, ◌≡◌, refl, Bool, not, ◌&&◌, Bool-cases, inl, inr, true, if◌then◌else◌, pos, negsuc,
  is_negative, arith,
}
use independent_study.Liburing.{Fd}
use independent_study.Main.Laws.{gain}
use independent_study.Server.{Sockets, after_listen, after_bind, after_socket, server_socket}

negative_gain : (fd : Fd) (q : ℕ) → is_negative fd ≡ true → gain q fd ≡ 0
negative_gain (pos n) q e = cc
negative_gain (negsuc n) q e = refl

module _ (sockets : Sockets) (held : ℕ → sockets.World → ℕ)
    (socket_holds : (w : sockets.World) (q : ℕ)
      → held q (sockets.socket w).1 ≡ held q w + gain q (sockets.socket w).0)
    (bind_holds : (fd : Fd) (port : ℕ) (w : sockets.World) (q : ℕ)
      → held q (sockets.bind fd port w).1 ≡ held q w)
    (listen_holds : (fd : Fd) (w : sockets.World) (q : ℕ)
      → held q (sockets.listen fd w).1 ≡ held q w)
    (close_holds : (fd : Fd) (w : sockets.World)
      → ((q : ℕ) → gain q fd ≤ held q w)
      → (q : ℕ) → held q (sockets.close fd w) + gain q fd ≡ held q w) where
  open sockets use {World, socket, bind, listen, close}

  closed_holds :
      (fd : Fd) (w v : World)
      → ((q : ℕ) → held q v ≡ held q w + gain q fd)
      → (q : ℕ) → held q (close fd v) ≡ held q w
  closed_holds fd w v h q = omega (arith, close_holds fd v (λ r. omega (arith, h r)) q, h q)

  -- Whether none of the calls fails.
  abbrev all_succeed : World → Bool
  all_succeed w =
      let (fd, w1) = socket w in
      let (bound, w2) = bind fd 8080 w1 in
      not (is_negative fd) && not (is_negative bound) && not (is_negative (listen fd w2).0)

  -- `server_socket` returns 0 where none of the calls fails and 1 where one does, and on every path
  -- it has closed the socket, so that the descriptors that are open are those that were before.
  pub server_socket_lem :
      (w : World)
      → ((server_socket sockets w).0 ≡ (if all_succeed w then 0 else 1))
        × ((q : ℕ) → held q (server_socket sockets w).1 ≡ held q w)
  unfolding server_socket after_socket after_bind after_listen
  server_socket_lem w =
      let fd = (socket w).0 in
      let w1 = (socket w).1 in
      let w2 = (bind fd 8080 w1).1 in
      let w3 = (listen fd w2).1 in
      let bound : (q : ℕ) → held q w2 ≡ held q w + gain q fd =
        λ q. omega (arith, socket_holds w q, bind_holds fd 8080 w1 q) in
      let closed = closed_holds fd w w3 (λ q. omega (arith, bound q, listen_holds fd w2 q)) in
      elim (Bool-cases (is_negative fd)) [
        | inl e ↦ rw e (refl, λ q. omega (arith, socket_holds w q, negative_gain fd q e))
        | inr e ↦ rw e (elim (Bool-cases (is_negative (bind fd 8080 w1).0)) [
          | inl e' ↦ rw e' (refl, closed_holds fd w w2 bound)
          | inr e' ↦ rw e' (elim (Bool-cases (is_negative (listen fd w2).0)) [
            | inl e'' ↦ rw e'' (refl, closed)
            | inr e'' ↦ rw e'' (refl, closed)
          ])
        ])
      ]
