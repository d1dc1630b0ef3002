-- ===== src/Server/Tests.antt =====
-- `server_socket` on a concrete system, and its theorem at it.
use independent_study.Base.{
  ℕ, suc, ◌+◌, ◌≤◌, ◌≡◌, refl, ◌==◌, if◌then◌else◌, ltb, pos, negsuc, arith,
}
use independent_study.Liburing.{Fd}
use independent_study.FileIo.Sim.{count_down, count_down_lem}
use independent_study.Main.Laws.{gain}
use independent_study.Server.{Sockets, server_socket}
use independent_study.Server.Balance.{server_socket_lem}

-- The next descriptor, the open ones, and the port that is in use.
record Host : Type 0 where
  next : ℕ
  live : ℕ → ℕ
  taken : ℕ

abbrev closed : Fd → Host → Host
closed (pos d) w = record w { live = count_down w.live d }
closed (negsuc n) w = w

abbrev host_sockets : Sockets
host_sockets = record {
  World = Host;
  socket = λ w. (
    pos w.next,
    record w { next = suc w.next; live = λ q. w.live q + (if w.next == q then 1 else 0) },
  );
  bind = λ fd port w. (if port == w.taken then negsuc 97 else pos 0, w);
  listen = λ fd w. (pos 0, w);
  close = closed;
}

closed_holds :
    (fd : Fd) (w : Host)
    → ((q : ℕ) → gain q fd ≤ w.live q)
    → (q : ℕ) → (closed fd w).live q + gain q fd ≡ w.live q
closed_holds (pos d) w owned q = count_down_lem w.live d q (ground (arith, owned d))
closed_holds (negsuc n) w owned q = omega arith

-- Port 8080 is in use.
abbrev host : Host
host = record { next = 3; live = λ q. if ltb q 3 then 1 else 0; taken = 8080 }

server_socket_lem_example :
    ((server_socket host_sockets host).0 ≡ 1)
    × ((q : ℕ) → (server_socket host_sockets host).1.live q ≡ host.live q)
server_socket_lem_example =
    server_socket_lem host_sockets (λ q w. w.live q) (λ w q. refl) (λ fd port w q. refl)
      (λ fd w q. refl) closed_holds host
