-- ===== src/Tests/Sockets.antt =====
-- A socket and a server at concrete inputs.
use cpp_exchange.Prelude.{
  ◌≡◌, ◌≢◌, update, ◌+◌, refl, none, some, true, false, List, [], ◌∷◌, ◌++◌, arith, ℕ, zero, suc,
}
use cpp_exchange.Outcome.{ok, ◌>>=◌}
use cpp_exchange.SocketUtils.{value}
use cpp_exchange.TcpSocket.{TcpSocket, Host, send, send_and_recv, outgoing}
use cpp_exchange.TcpSocket.Buffers.{outgoing-send, send_and_recv-outgoing}
use cpp_exchange.TcpServer.{
  Event, TcpServer, read, write, poll, handle_events, drop_failed, note_ready, add_missing,
  contains_socket, remove_socket,
}
use cpp_exchange.SocketUtils.{
  Status, minus_one, System, SocketCfg, Call, AddrInfo, Interface, Hints, get_iface_ip,
  address_text, find_host, same_text, create_socket, tcp_nodelay, so_reuseaddr, so_timestamp,
  resolved, max_tcp_server_backlog,
}
use cpp_exchange.SocketUtils
use cpp_exchange.SocketUtils.SetUp.{Willing, made, create_socket-set_up}
use cpp_exchange.TcpServer.Rounds.{listen-listening}
use cpp_exchange.TcpServer
use cpp_exchange.TcpServer.Sockets
use cpp_exchange.TcpServer.Sockets.{poll-IsValid}

-- Two bytes wait.
abbrev pub socket : TcpSocket
socket = record {
  socket_fd = value 5;
  sin_port = 0;
  outbound_data = λ i. i + 1;
  next_send_valid_index = 2;
  inbound_data = λ _. 0;
  next_rcv_valid_index = 0;
}

outgoing-send_example :
    (s' : TcpSocket) × (send socket (7 ∷ 8 ∷ []) ≡ ok s')
    × (outgoing s' ≡ outgoing socket ++ 7 ∷ 8 ∷ [])
    × (s'.inbound_data ≡ socket.inbound_data)
outgoing-send_example = outgoing-send socket (7 ∷ 8 ∷ []) (omega arith)

-- All sockets are like this one; 3 gets one byte more.
abbrev host : Host (Unit {0})
host = record { sockets = λ _. socket; others = tt }

send_and_recv-outgoing_example :
    (h2 : Host (Unit {0})) × ((send socket (7 ∷ []) >>= λ s.
    send_and_recv
      (λ n w. (none, w))
      (λ s t h. ok h)
      3
      (record host { sockets = update host.sockets 3 s }))
      ≡ ok (false, some (outgoing socket ++ 7 ∷ []), h2))
    × (outgoing (h2.sockets 3) ≡ [])
    × ((j : ℕ) → j ≢ 3 → h2.sockets j ≡ socket)
send_and_recv-outgoing_example =
    send_and_recv-outgoing (λ n w. (none, w)) (λ s t h. ok h) 3 host (7 ∷ []) (λ room w. refl)
      (omega arith) (omega arith)

abbrev pub server : TcpServer
server = record { listener_socket = 0; receive_sockets = 1 ∷ 2 ∷ []; send_sockets = 2 ∷ [] }

server-IsValid : Sockets.IsValid server
server-IsValid = record {
  receive_distinct = ((omega arith, tt), (tt, tt));
  send_distinct = (tt, tt);
}

-- A new connection, and the end of socket 2.
abbrev events : List Event
events =
    record { socket = 0; filter = read; failed = false }
    ∷ record { socket = 2; filter = write; failed = true }
    ∷ []

poll-IsValid_example :
    (server' : TcpServer) × (poll events (λ _. true) (3 ∷ []) server ≡ ok server')
    × Sockets.IsValid server'
unfolding handle_events drop_failed note_ready add_missing contains_socket remove_socket
poll-IsValid_example =
    poll-IsValid events (λ _. true) (3 ∷ []) server server-IsValid (refl, tt) (tt, tt)
      ((omega arith, tt), tt)

-- A system that opens 5 with no flags set and grants what is asked, but refuses to connect; its one
-- interface is called 1 and has the address 9.
abbrev answer : List Call → Call → Status
answer cs (SocketUtils.socket f s p) = value 5
answer cs (SocketUtils.connect fd a) = minus_one
answer cs c = value 0

abbrev address : AddrInfo
address = record { family = 2; socktype = 1; protocol = 6; address = 77 }

abbrev system : System
system = record {
  answer = answer;
  nonblock_bit = 2;
  getifaddrs = some (record { name = 1 ∷ []; is_inet = true; host = 9 ∷ [] } ∷ []);
  getaddrinfo = λ ip port hints. elim ip [
    | [] ↦ none
    | c ∷ cs ↦ elim c [ zero ↦ some [] | suc n ↦ some (address ∷ []) ]
  ];
}

system-Willing : Willing system 5 0
system-Willing = record {
  opens = λ cs f s p. refl;
  reads_flags = λ cs. refl;
  blocking = refl;
  sets_flags = λ cs n. refl;
  sets_nodelay = λ cs. refl;
  sets_timestamp = λ cs. refl;
  sets_reuse = λ cs. refl;
  binds = λ cs a. refl;
  listens = λ cs n. refl;
  connects = λ cs a. refl;
}

-- To connect to an address.
abbrev client : (ip : ℕ) → SocketCfg
client ip = record {
  ip = ip ∷ [];
  iface = [];
  port = 80;
  is_udp = false;
  is_listening = false;
  needs_so_timestamp = false;
}

-- The connection is refused, and the socket is returned.
create_socket-set_up_example :
    create_socket system (client 3) []
    ≡ ok (
      value 5,
      SocketUtils.connect (value 5) 77
          ∷ SocketUtils.set_option (value 5) tcp_nodelay
          ∷ SocketUtils.set_flags (value 5) 4
          ∷ SocketUtils.get_flags (value 5)
          ∷ SocketUtils.socket 2 1 6
          ∷ [],
    )
unfolding address_text
create_socket-set_up_example =
    create_socket-set_up system (client 3) address 5 0 system-Willing [] [] refl

-- The server of the interface 1 listens on port 70000, which is 4464 in 16 bits.
listen-listening_example :
    TcpServer.listen system (λ k s. value 0) (value 3) (1 ∷ []) 70000 socket []
    ≡ ok (
      record socket { socket_fd = value 5; sin_port = 4464 },
      made
          (SocketUtils.socket 2 1 6
            ∷ SocketUtils.get_flags (value 5)
            ∷ SocketUtils.set_flags (value 5) 4
            ∷ SocketUtils.set_option (value 5) tcp_nodelay
            ∷ SocketUtils.set_option (value 5) so_reuseaddr
            ∷ SocketUtils.bind (value 5) (resolved 77)
            ∷ SocketUtils.listen (value 5) max_tcp_server_backlog
            ∷ SocketUtils.set_option (value 5) so_timestamp
            ∷ [])
          [],
    )
unfolding get_iface_ip find_host same_text
listen-listening_example =
    listen-listening system (λ k s. value 0) 3 5 0 (1 ∷ []) 70000 address [] socket []
      system-Willing refl refl
