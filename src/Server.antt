-- ===== src/Server.antt =====
-- source/Network/Server.h: a socket is made, bound to port 8080, set to listen, and closed. The
-- system calls are parameters; a negative result is a failure.
pub mod Balance
mod Tests
use independent_study.Base.{ℕ, if◌then◌else◌, ℤ, is_negative}
use independent_study.Liburing.{Fd}

pub record Sockets : Type 1 where
  pub World : Type 0
  pub socket : World → Fd × World
  pub bind : Fd → ℕ → World → ℤ × World
  pub listen : Fd → World → ℤ × World
  pub close : Fd → World → World

module _ (sockets : Sockets) where
  open sockets use {World, socket, bind, listen, close}

  -- From `listen` on.
  unfoldable pub after_listen : Fd → ℤ × World → ℕ × World
  after_listen sockfd (result, w) =
      if is_negative result then (1, close sockfd w) else (0, close sockfd w)

  -- From `bind` on.
  unfoldable pub after_bind : Fd → ℤ × World → ℕ × World
  unfolding after_listen
  after_bind sockfd (result, w) =
      if is_negative result then (1, close sockfd w) else after_listen sockfd (listen sockfd w)

  unfoldable pub after_socket : Fd × World → ℕ × World
  unfolding after_bind
  after_socket (sockfd, w) =
      if is_negative sockfd then (1, w) else after_bind sockfd (bind sockfd 8080 w)

  -- The status that it returns.
  unfoldable pub server_socket : World → ℕ × World
  unfolding after_socket
  server_socket w = after_socket (socket w)
