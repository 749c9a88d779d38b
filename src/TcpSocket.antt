-- ===== src/TcpSocket.antt =====
-- communication/tcp_socket.h: a socket with its two buffers. The operating system and the callback
-- are parameters.
use cpp_exchange.Prelude.{
  ℕ, zero, suc, ◌+◌, ◌-◌, ◌*◌, ◌%◌, ◌^◌, Bool, true, false, Option, some, none, List, [], ◌∷◌,
  update, length, leb, ltb, if◌then◌else◌,
}
use cpp_exchange.SocketUtils.{Status, minus_one, System, SocketCfg, Call, create_socket}
use cpp_exchange.Outcome.{Outcome, ok, undefined, ◌>>=◌}
pub mod Buffers

abbrev pub nanos_to_micros : ℕ
nanos_to_micros = 1000

abbrev pub nanos_to_secs : ℕ
nanos_to_secs = 1000000000

abbrev pub tcp_buffer_size : ℕ
tcp_buffer_size = 67108864

-- The bytes `bytes` copied to `buffer` from the index `i` on.
unfoldable pub memcpy : (buffer : ℕ → ℕ) (i : ℕ) → List ℕ → ℕ → ℕ
memcpy buffer i [] = buffer
memcpy buffer i (byte ∷ bytes) = memcpy (update buffer i byte) (suc i) bytes

-- The `n` bytes of `buffer` from the index `i` on.
abbrev pub slice : (buffer : ℕ → ℕ) (i n : ℕ) → List ℕ
slice buffer i zero = []
slice buffer i (suc n) = buffer i ∷ slice buffer (suc i) n

-- `sin_port` is the port of `socket_attrib_`, whose other fields are constants.
pub record TcpSocket : Type 0 where
  pub socket_fd : Status
  pub sin_port : ℕ
  pub outbound_data : ℕ → ℕ
  pub next_send_valid_index : ℕ
  pub inbound_data : ℕ → ℕ
  pub next_rcv_valid_index : ℕ

unfoldable pub create : TcpSocket
create = record {
  socket_fd = minus_one;
  sin_port = 0;
  outbound_data = λ _. 0;
  next_send_valid_index = 0;
  inbound_data = λ _. 0;
  next_rcv_valid_index = 0;
}

-- The port is a 16-bit number for `htons`.
unfoldable pub connect :
    System → SocketCfg → TcpSocket → List Call → Outcome ((Status × TcpSocket) × List Call)
connect system cfg s calls = do
  r ← create_socket system cfg calls
  ok ((r.0, record s { socket_fd = r.0; sin_port = cfg.port % 2 ^ 16 }), r.1)

-- A copy past the end of the buffer is undefined.
unfoldable pub send : TcpSocket → List ℕ → Outcome TcpSocket
send s bytes =
    if leb (s.next_send_valid_index + length bytes) tcp_buffer_size
    then ok (record s {
      outbound_data = memcpy s.outbound_data s.next_send_valid_index bytes;
      next_send_valid_index = s.next_send_valid_index + length bytes;
    })
    else undefined

-- What `::send` is given: the bytes that wait, if there are any.
unfoldable pub outgoing : TcpSocket → List ℕ
outgoing s = slice s.outbound_data 0 s.next_send_valid_index

-- The kernel's time stamp, in seconds and microseconds, as nanoseconds; 0 without one.
unfoldable pub kernel_time : Option (ℕ × ℕ) → ℕ
kernel_time none = 0
kernel_time (some (tv_sec, tv_usec)) = tv_sec * nanos_to_secs + tv_usec * nanos_to_micros

-- The sockets at their addresses, and all else that the operating system and the callbacks keep.
pub record Host (W : Type 0) : Type 0 where
  pub sockets : ℕ → TcpSocket
  pub others : W

-- What recvmsg gives for a room of `n` bytes: the bytes, one at least, that it reads, with the time
-- stamp of the kernel if one comes with them; `none` where it reads nothing or fails.
abbrev pub Recvmsg : Type 0 → Type 0
Recvmsg W = (n : ℕ) → W → Option (List ℕ × Option (ℕ × ℕ)) × W

-- The callback gets the socket that has read, and may act on every socket.
abbrev pub RecvCallback : Type 0 → Type 0
RecvCallback W = (s kernel_time : ℕ) → Host W → Outcome (Host W)

-- What `sendAndRecv` does with what recvmsg gave it: whether it is something, and the sockets after
-- the callback.
unfoldable pub handle_read :
    {W : Type 0}
    → RecvCallback W
    → ℕ
    → Option (List ℕ × Option (ℕ × ℕ))
    → Host W
    → Outcome (Bool × Host W)
handle_read recv_callback s none h = ok (false, h)
handle_read recv_callback s (some (bytes, stamp)) h = do
  let socket = h.sockets s
  let received : TcpSocket = record socket {
    inbound_data = memcpy socket.inbound_data socket.next_rcv_valid_index bytes;
    next_rcv_valid_index = socket.next_rcv_valid_index + length bytes;
  }
  h' ← recv_callback s (kernel_time stamp) (record h { sockets = update h.sockets s received })
  ok (true, h')

-- The first half of `sendAndRecv`.
unfoldable pub receive :
    {W : Type 0} → Recvmsg W → RecvCallback W → ℕ → Host W → Outcome (Bool × Host W)
unfolding handle_read
receive recvmsg recv_callback s h =
    let r = recvmsg (tcp_buffer_size - (h.sockets s).next_rcv_valid_index) h.others in
    handle_read recv_callback s r.0 (record h { others = r.1 })

-- The second half: what `::send` is given, if it is called. How much of it `::send` takes is not
-- looked at.
unfoldable pub send_pending : {W : Type 0} → ℕ → Host W → Option (List ℕ) × Host W
send_pending s h =
    let socket = h.sockets s in
    (
      if ltb 0 socket.next_send_valid_index then some (outgoing socket) else none,
      record h { sockets = update h.sockets s (record socket { next_send_valid_index = 0 }) },
    )

unfoldable pub send_and_recv :
    {W : Type 0}
    → Recvmsg W
    → RecvCallback W
    → ℕ
    → Host W
    → Outcome (Bool × Option (List ℕ) × Host W)
send_and_recv recvmsg recv_callback s h = do
  r ← receive recvmsg recv_callback s h
  let sent = send_pending s r.1
  ok (r.0, sent.0, sent.1)
