-- ===== src/TcpServer/Rounds.antt =====
-- communication/tcp_server.h: `listen`, and a round of `sendAndRecv` over all sockets.
use cpp_exchange.Prelude.{
  ◌++◌, append-nil, ℕ, ◌+◌, ◌%◌, ◌^◌, ◌≡◌, refl, Bool, true, false, some, List, [], ◌∷◌, All,
  if◌then◌else◌, subst, sym,
}
use cpp_exchange.Outcome.{Outcome, ok}
use cpp_exchange.SocketUtils.{
  Status, value, not_minus_one, System, Call, AddrInfo, socket, get_flags, set_flags, set_option,
  tcp_nodelay, so_reuseaddr, so_timestamp, bind, resolved, max_tcp_server_backlog, get_iface_ip,
  address_text,
}
use cpp_exchange.SocketUtils
use cpp_exchange.SocketUtils.SetUp.{Willing, made, create_socket-set_up}
use cpp_exchange.TcpSocket.{Host, Recvmsg, RecvCallback, TcpSocket, connect}
use cpp_exchange.TcpServer.Sent.{
  Offered, Offered-append, Offered-behind, Conserves, Conserves-then, waiting,
}
use cpp_exchange.TcpServer.Sending.{Writes, Reads, each-Conserves}
use cpp_exchange.TcpServer.{
  TcpServer, add_to_kqueue_list, listen, each_send_and_recv, send_and_recv,
}

-- Where kqueue and kevent succeed, getaddrinfo finds an address for the interface and the system
-- grants what is asked: `listen` returns, the listening socket has the descriptor that the system
-- opened, and the calls are those of a TCP socket that is not blocking, sends at once, may reuse its
-- address, is bound to the address found, listens with the given backlog and has time stamps.
pub listen-listening :
    (system : System) (kevent : Status → Status → Status) (k fd flags : ℕ) (iface : List ℕ)
    (port : ℕ) (rp : AddrInfo) (rps : List AddrInfo) (s : TcpSocket) (calls : List Call)
    → Willing system fd flags
    → system.getaddrinfo
        (get_iface_ip system iface)
        port
        (record { passive = true; datagram = false })
      ≡ some (rp ∷ rps)
    → not_minus_one (kevent (value k) (value fd)) ≡ true
    → listen system kevent (value k) iface port s calls
      ≡ ok (
        record s { socket_fd = value fd; sin_port = port % 2 ^ 16 },
        made
            (socket rp.family rp.socktype rp.protocol
              ∷ get_flags (value fd)
              ∷ set_flags (value fd) (flags + 2 ^ system.nonblock_bit)
              ∷ set_option (value fd) tcp_nodelay
              ∷ set_option (value fd) so_reuseaddr
              ∷ bind (value fd) (resolved rp.address)
              ∷ SocketUtils.listen (value fd) max_tcp_server_backlog
              ∷ set_option (value fd) so_timestamp
              ∷ [])
            calls,
      )
unfolding listen connect add_to_kqueue_list address_text
listen-listening system kevent k fd flags iface port rp rps s calls w found added =
    rw
      (
        create_socket-set_up system
            (record {
              ip = [];
              iface = iface;
              port = port;
              is_udp = false;
              is_listening = true;
              needs_so_timestamp = true;
            })
            rp fd flags w rps calls found,
        added,
      )
      refl

module _ {W : Type 0} (recvmsg : ℕ → Recvmsg W) (recv_callback : RecvCallback W)
    (recv_finished_callback : Host W → Outcome (Host W)) (server : TcpServer) where
  -- `mid` is what `recv_finished_callback` leaves, if it is called, and else what the loop over the
  -- sockets that are read from leaves.
  abbrev pub Dispatched : (h mid : Host W) → Type 0
  Dispatched h mid =
      (r : Bool × List (ℕ × List ℕ) × Host W) × (each_send_and_recv recvmsg recv_callback
          server.receive_sockets false h
        ≡ ok r)
      × ((if r.0 then recv_finished_callback r.2 else ok r.2) ≡ ok mid)

  module _ (asked : W → ℕ → List ℕ) where
    -- The callback returns, and lets the bytes that wait stay in front of those that it asks to send.
    abbrev pub Finishes : Type 0
    Finishes =
        (h : Host W) → (h' : Host W) × (recv_finished_callback h ≡ ok h') × Conserves asked [] h h'

    finish :
        (recv : Bool) (h : Host W)
        → Finishes
        → (mid : Host W) × ((if recv then recv_finished_callback h else ok h) ≡ ok mid)
          × Conserves asked [] h mid
    finish true h finishes = finishes h
    finish false h finishes =
        (h, refl, λ u. ([], sym (append-nil (asked h.others u)), sym (append-nil (waiting h u))))

    -- Where the callbacks return, and each lets the bytes that wait in a socket stay in front of
    -- those that it asks to send, as TCPSocket's `send` does (`asked` counts what they ask for, and
    -- recvmsg does not ask), a round of `sendAndRecv` returns. For every socket, what `::send` was
    -- given in the round and then what waits after it is what waited before and then what the
    -- callbacks have asked for, with no byte lost and none twice. `::send` was given all that waited
    -- in a socket that the server reads from, and in a socket that it sends to all that waited and
    -- all that the callbacks have asked for until the loop over those sockets begins.
    pub send_and_recv-Conserves :
        (h : Host W)
        → Writes recvmsg recv_callback asked
        → Reads recvmsg recv_callback asked
        → Finishes
        → (calls : List (ℕ × List ℕ)) × (h' mid : Host W) × (send_and_recv recvmsg recv_callback
              recv_finished_callback server h
            ≡ ok (calls, h'))
          × Dispatched h mid
          × Conserves asked calls h h'
          × All (λ u. Offered u calls (waiting h u)) server.receive_sockets
          × All
              (λ u.
                (extra : List ℕ) × (asked mid.others u ≡ asked h.others u ++ extra)
                × Offered u calls (waiting h u ++ extra))
              server.send_sockets
    unfolding send_and_recv
    send_and_recv-Conserves h writes reads finishes =
        let (r, received, first, from_readers) =
          each-Conserves recvmsg recv_callback asked writes reads server.receive_sockets false h in
        let (mid, finished, more) = finish r.0 r.2 finishes in
        let (q, sent, last, to_writers) =
          each-Conserves recvmsg recv_callback asked writes reads server.send_sockets false mid in
        let until_mid =
          subst (λ calls. Conserves asked calls h mid) (append-nil r.1)
            (Conserves-then asked r.1 [] h r.2 mid first more) in
        (
          r.1 ++ q.1,
          q.2,
          mid,
          rw (received, finished, sent) refl,
          (r, received, finished),
          Conserves-then asked r.1 q.1 h mid q.2 until_mid last,
          early r.1 q.1 server.receive_sockets from_readers,
          late r.1 q.1 mid until_mid server.send_sockets to_writers,
        )
      where
        early :
            (calls later : List (ℕ × List ℕ)) (ss : List ℕ)
            → All (λ u. Offered u calls (waiting h u)) ss
            → All (λ u. Offered u (calls ++ later) (waiting h u)) ss
        early calls later [] offered = tt
        early calls later (s ∷ ss) offered =
            (Offered-append s calls later (waiting h s) offered.0, early calls later ss offered.1)

        late :
            (calls later : List (ℕ × List ℕ)) (mid : Host W)
            → Conserves asked calls h mid
            → (ss : List ℕ) → All (λ u. Offered u later (waiting mid u)) ss
            → All
                (λ u.
                  (extra : List ℕ) × (asked mid.others u ≡ asked h.others u ++ extra)
                  × Offered u (calls ++ later) (waiting h u ++ extra))
                ss
        late calls later mid until [] offered = tt
        late calls later mid until (s ∷ ss) offered = (
          Offered-behind asked s calls later h mid until offered.0,
          late calls later mid until ss offered.1,
        )
