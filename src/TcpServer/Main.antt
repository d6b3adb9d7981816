-- ===== src/TcpServer/Main.antt =====
-- `main` of projects/networking/tcp-suite/server.c around its poll loop. How the calls that set the
-- listening socket up go is an input.
use c_systems_programming.Common.{ℕ, List, [], ◌∷◌, Bool, Text, codes}
use c_systems_programming.TcpServer.{Server, Call, print, cleanup, serve_loop, initial, Events}

-- Which call fails first, or the descriptor of the socket that listens.
pub data Setup : Type 0 where
  no_socket : Setup
  no_bind no_listen : ℕ → Setup
  listening : ℕ → Setup

-- A failed `bind` or `listen` jumps to `cleanup` over the places where `pollt` and `nfds` are set:
-- there they are what the stack holds, `stack`.
pub start_server : Setup → Server → (ℕ → Bool) → List Events → List Call × ℕ
unfolding cleanup serve_loop initial
start_server no_socket stack stale events = ([], 1)
start_server (no_bind socket_fd) stack stale events = (cleanup stack socket_fd, 0)
start_server (no_listen socket_fd) stack stale events = (cleanup stack socket_fd, 0)
start_server (listening socket_fd) stack stale events =
    ((serve_loop (initial socket_fd stale) socket_fd events).1, 0)

-- `main`, on the arguments behind the program's name.
pub server_main : List Text → Setup → Server → (ℕ → Bool) → List Events → List Call × ℕ
unfolding start_server
server_main (ip ∷ (port ∷ [])) setup stack stale events = start_server setup stack stale events
server_main args setup stack stale events = (print (codes "Usage: ./server <IP> <PORT>\n") ∷ [], 1)
