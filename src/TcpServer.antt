-- ===== src/TcpServer.antt =====
-- communication/tcp_server.h: a server's listening socket, and the sockets that it reads from and
-- writes to. The operating system and the callbacks are parameters; what `delete` frees is not
-- modelled.
use cpp_exchange.Prelude.{
  ℕ, update, ◌||◌, Option, none, some, Bool, true, false, not, ◌&&◌, List, [], ◌∷◌, ◌++◌, ◌==◌,
  if◌then◌else◌,
}
use cpp_exchange.SocketUtils.{Status, not_minus_one, System, SocketCfg, Call}
use cpp_exchange.TcpSocket
use cpp_exchange.TcpSocket.{TcpSocket, Host, Recvmsg, RecvCallback}
use cpp_exchange.Outcome.{Outcome, ok, ◌>>◌, ◌>>=◌, assert}
pub mod Sockets
pub mod Sent
pub mod Sending
pub mod Rounds

pub data Filter : Type 0 where
  read write : Filter

-- `failed`: the flags hold EV_ERROR or EV_EOF.
pub record Event : Type 0 where
  pub socket : ℕ
  pub filter : Filter
  pub failed : Bool

pub record TcpServer : Type 0 where
  pub listener_socket : ℕ
  pub receive_sockets : List ℕ
  pub send_sockets : List ℕ

-- The test with std::find.
unfoldable pub contains_socket : ℕ → List ℕ → Bool
contains_socket s [] = false
contains_socket s (t ∷ ts) = if s == t then true else contains_socket s ts

unfoldable pub add_missing : ℕ → List ℕ → List ℕ
unfolding contains_socket
add_missing s ts = if contains_socket s ts then ts else ts ++ s ∷ []

-- std::remove and erase
unfoldable pub remove_socket : ℕ → List ℕ → List ℕ
remove_socket s [] = []
remove_socket s (t ∷ ts) = let rest = remove_socket s ts in if t == s then rest else t ∷ rest

-- The sets by the filter of an event.
unfoldable pub note_ready : Event → TcpServer → TcpServer
note_ready e server = elim e.filter [
  | read ↦ record server { receive_sockets = add_missing e.socket server.receive_sockets }
  | write ↦ record server { send_sockets = add_missing e.socket server.send_sockets }
]

unfoldable pub drop_failed : Event → TcpServer → TcpServer
drop_failed e server =
    if e.failed
    then record server {
      receive_sockets = remove_socket e.socket server.receive_sockets;
      send_sockets = remove_socket e.socket server.send_sockets;
    }
    else server

abbrev pub is_read : Filter → Bool
is_read read = true
is_read write = false

-- The loop over the events: the server after them, and whether there is a new connection.
unfoldable pub handle_events :
    List Event → (have_new_connection : Bool) → TcpServer → Bool × TcpServer
handle_events [] have_new server = (have_new, server)
handle_events (e ∷ es) have_new server =
    let skipped = handle_events es true server in
    let handled = handle_events es have_new (drop_failed e (note_ready e server)) in
    if is_read e.filter && (e.socket == server.listener_socket) then skipped else handled

-- The loop over the connections that accept returns. `ready` is whether the calls that set a socket
-- up succeed.
unfoldable pub accept_all : (ready : ℕ → Bool) → List ℕ → TcpServer → Outcome TcpServer
accept_all ready [] server = ok server
accept_all ready (s ∷ ss) server = do
  assert (ready s)
  accept_all ready ss (record server { receive_sockets = server.receive_sockets ++ s ∷ [] })

unfoldable pub poll :
    List Event → (ready : ℕ → Bool) → (accepted : List ℕ) → TcpServer → Outcome TcpServer
poll events ready accepted server =
    let (have_new, handled) = handle_events events false server in
    if have_new then accept_all ready accepted handled else ok handled

-- `addToKqueueList`, where `kevent kqueue_fd socket_fd` is what the call of kevent returns.
unfoldable pub add_to_kqueue_list :
    (kevent : Status → Status → Status) (kqueue_fd : Status) → TcpSocket → Bool
add_to_kqueue_list kevent kqueue_fd s = not_minus_one (kevent kqueue_fd s.socket_fd)

-- `listen` on the listening socket `s`, where the call of kqueue returns `kqueue_fd`. A file
-- descriptor that is not negative is one that is not -1.
unfoldable pub listen :
    System
    → (kevent : Status → Status → Status) (kqueue_fd : Status) (iface : List ℕ) (port : ℕ)
    → TcpSocket
    → List Call
    → Outcome (TcpSocket × List Call)
listen system kevent kqueue_fd iface port s calls = do
  let cfg : SocketCfg = record {
    ip = [];
    iface = iface;
    port = port;
    is_udp = false;
    is_listening = true;
    needs_so_timestamp = true;
  }
  assert (not_minus_one kqueue_fd)
  r ← TcpSocket.connect system cfg s calls
  assert (not_minus_one r.0.0)
  assert (add_to_kqueue_list kevent kqueue_fd r.0.1)
  ok (r.0.1, r.1)

-- The call of `::send` for the socket `s`, if there was one.
abbrev pub sent_by : (s : ℕ) → Option (List ℕ) → List (ℕ × List ℕ)
sent_by s none = []
sent_by s (some bytes) = (s, bytes) ∷ []

-- What recvmsg reads may differ from socket to socket. The callbacks may act on every socket, but
-- not on the two lists of the server.
module _ {W : Type 0} (recvmsg : ℕ → Recvmsg W) (recv_callback : RecvCallback W) where
  -- A loop of `sendAndRecv` over sockets: whether one of them has read something, the calls of
  -- `::send` in order, and the sockets.
  unfoldable pub each_send_and_recv :
      List ℕ → (recv : Bool) → Host W → Outcome (Bool × List (ℕ × List ℕ) × Host W)
  each_send_and_recv [] recv h = ok (recv, [], h)
  each_send_and_recv (s ∷ ss) recv h = do
    r ← TcpSocket.send_and_recv (recvmsg s) recv_callback s h
    q ← each_send_and_recv ss (recv || r.0) r.2
    ok (q.0, sent_by s r.1 ++ q.1, q.2)

  -- The calls of `::send` of a round, in order, and the sockets after it.
  unfoldable pub send_and_recv :
      (recv_finished_callback : Host W → Outcome (Host W))
      → TcpServer
      → Host W
      → Outcome (List (ℕ × List ℕ) × Host W)
  send_and_recv recv_finished_callback server h = do
    r ← each_send_and_recv server.receive_sockets false h
    h' ← (if r.0 then recv_finished_callback r.2 else ok r.2)
    q ← each_send_and_recv server.send_sockets false h'
    ok (r.1 ++ q.1, q.2)
