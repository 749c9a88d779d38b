-- ===== src/TcpServer/Sending.antt =====
-- communication/tcp_server.h: the loops of `sendAndRecv` over sockets.
use cpp_exchange.Prelude.{
  Bool-cases, inl, inr, ◌++◌, append-nil, ap, ◌∙◌, ◌≢◌, arith, eq_self, ℕ, ◌+◌, ◌≡◌, refl, Bool,
  true, false, ◌||◌, Option, some, none, List, [], ◌∷◌, All, update, update_self, update_ne, subst,
  sym, ltb, ◌-◌, length,
}
use native.Mathlib.Decide.{ℕ_discrete}
use cpp_exchange.Outcome.{ok}
use cpp_exchange.TcpSocket
use cpp_exchange.TcpSocket.{
  Host, Recvmsg, RecvCallback, receive, handle_read, send_pending, TcpSocket, connect, outgoing,
  tcp_buffer_size, memcpy, kernel_time,
}
use cpp_exchange.TcpServer.Sent.{
  sent_to, Offered, Offered-append, Offered-later, Conserves, Conserves-then, waiting,
}
use cpp_exchange.TcpSocket.Buffers.{send_pending-rest, send_pending-other}
use cpp_exchange.TcpServer.{sent_by, each_send_and_recv}

module _ {W : Type 0} (recvmsg : ℕ → Recvmsg W) (recv_callback : RecvCallback W)
    (asked : W → ℕ → List ℕ) where
  -- The callback of a socket returns, and lets the bytes that wait stay in front of those that it
  -- asks to send.
  abbrev pub Writes : Type 0
  Writes =
      (s t : ℕ) (h : Host W)
      → (h' : Host W) × (recv_callback s t h ≡ ok h') × Conserves asked [] h h'

  -- recvmsg does not act as a callback.
  abbrev pub Reads : Type 0
  Reads = (s n : ℕ) (w : W) → asked (recvmsg s n w).1 ≡ asked w

  -- A change of sockets by which no bytes that wait change.
  unchanged :
      (h h' : Host W)
      → asked h'.others ≡ asked h.others
      → ((u : ℕ) → waiting h' u ≡ waiting h u)
      → Conserves asked [] h h'
  unchanged h h' same waits u = (
    [],
    ap (λ (a : ℕ → List ℕ). a u) same ∙ sym (append-nil (asked h.others u)),
    waits u ∙ sym (append-nil (waiting h u)),
  )

  pending : (s : ℕ) (h : Host W) → sent_to s (sent_by s (send_pending s h).0) ≡ waiting h s
  unfolding send_pending outgoing
  pending s h = elim (Bool-cases (ltb 0 (h.sockets s).next_send_valid_index)) [
    | inl waits ↦ rw (waits, eq_self s) (append-nil (outgoing (h.sockets s)))
    | inr idle ↦
        let none_waits : 0 ≡ (h.sockets s).next_send_valid_index = ground arith in
        rw idle (ap (TcpSocket.slice (h.sockets s).outbound_data 0) none_waits)
  ]

  pending-other : (s u : ℕ) (o : Option (List ℕ)) → u ≢ s → sent_to u (sent_by s o) ≡ []
  pending-other s u none ne = refl
  pending-other s u (some bytes) ne = ground arith

  -- The second half of `sendAndRecv` gives all that waits to `::send`.
  pub send_pending-Conserves :
      (s : ℕ) (h : Host W) → Conserves asked (sent_by s (send_pending s h).0) h (send_pending s h).1
  unfolding send_pending
  send_pending-Conserves s h u = (
    [],
    sym (append-nil (asked h.others u)),
    elim (ℕ_discrete u s) [
      | yes same ↦
          subst
            (λ k.
              sent_to k (sent_by s (send_pending s h).0) ++ waiting (send_pending s h).1 k
              ≡ waiting h k ++ [])
            (sym same)
            (ap (λ l. sent_to s (sent_by s (send_pending s h).0) ++ l) (send_pending-rest s h)
              ∙ ap (λ l. l ++ []) (pending s h))
      | no other ↦
          ap (λ l. l ++ waiting (send_pending s h).1 u)
            (pending-other s u (send_pending s h).0 other)
          ∙ ap outgoing (send_pending-other s h u other)
          ∙ sym (append-nil (waiting h u))
    ],
  )

  module _ (writes : Writes) (reads : Reads) where
    -- What is read, and the callback.
    handle_read-Conserves :
        (s : ℕ) (read : Option (List ℕ × Option (ℕ × ℕ))) (h : Host W) (w : W)
        → asked w ≡ asked h.others
        → (r : Bool × Host W) × (handle_read recv_callback s read (record h { others = w }) ≡ ok r)
          × Conserves asked [] h r.1
    unfolding handle_read outgoing
    handle_read-Conserves s none h w same = (
      (false, record h { others = w }),
      refl,
      unchanged h (record h { others = w }) same (λ u. refl),
    )
    handle_read-Conserves s (some (bytes, stamp)) h w same =
        let socket = h.sockets s in
        let received : TcpSocket = record socket {
          inbound_data = memcpy socket.inbound_data socket.next_rcv_valid_index bytes;
          next_rcv_valid_index = socket.next_rcv_valid_index + length bytes;
        } in
        let k : Host W = record { sockets = update h.sockets s received; others = w } in
        let (h', done, conserved) = writes s (kernel_time stamp) k in
        (
          (true, h'),
          rw done refl,
          Conserves-then asked [] [] h k h' (unchanged h k same (update-waiting s received h refl))
              conserved,
        )
      where
        update-waiting :
            (s : ℕ) (received : TcpSocket) (h : Host W)
            → outgoing received ≡ outgoing (h.sockets s)
            → (u : ℕ) → outgoing (update h.sockets s received u) ≡ waiting h u
        update-waiting s received h e u = elim (ℕ_discrete u s) [
          | yes same ↦
              subst (λ k. outgoing (update h.sockets s received k) ≡ waiting h k) (sym same)
                (ap outgoing (update_self h.sockets s received) ∙ e)
          | no other ↦ ap outgoing (update_ne h.sockets s u received other)
        ]

    -- `sendAndRecv` of one socket returns, and gives all that waited to `::send`.
    pub one-Conserves :
        (s : ℕ) (h : Host W)
        → (r : Bool × Option (List ℕ) × Host W) × (TcpSocket.send_and_recv
              (recvmsg s)
              recv_callback
              s
              h
            ≡ ok r)
          × Conserves asked (sent_by s r.1) h r.2
          × Offered s (sent_by s r.1) (waiting h s)
    unfolding TcpSocket.send_and_recv receive
    one-Conserves s h =
        let given = recvmsg s (tcp_buffer_size - (h.sockets s).next_rcv_valid_index) h.others in
        let (r, done, before) =
          handle_read-Conserves s given.0 h given.1
            (reads s (tcp_buffer_size - (h.sockets s).next_rcv_valid_index) h.others) in
        let sent = send_pending s r.1 in
        let conserved =
          Conserves-then asked [] (sent_by s sent.0) h r.1 sent.1 before
            (send_pending-Conserves s r.1) in
        let (extra, _, kept) = conserved s in
        (
          (r.0, sent.0, sent.1),
          rw done refl,
          conserved,
          (
            extra,
            sym (append-nil (sent_to s (sent_by s sent.0)))
                ∙ ap (λ l. sent_to s (sent_by s sent.0) ++ l) (sym (send_pending-rest s r.1))
                ∙ kept,
          ),
        )

    later_offers :
        (calls later : List (ℕ × List ℕ)) (h h1 : Host W)
        → Conserves asked calls h h1
        → (ss : List ℕ) → All (λ u. Offered u later (waiting h1 u)) ss
        → All (λ u. Offered u (calls ++ later) (waiting h u)) ss
    later_offers calls later h h1 conserved [] offered = tt
    later_offers calls later h h1 conserved (s ∷ ss) offered = (
      Offered-later asked s calls later h h1 conserved offered.0,
      later_offers calls later h h1 conserved ss offered.1,
    )

    pub each-Conserves :
        (ss : List ℕ) (recv : Bool) (h : Host W)
        → (r : Bool × List (ℕ × List ℕ) × Host W) × (each_send_and_recv recvmsg recv_callback ss
              recv h
            ≡ ok r)
          × Conserves asked r.1 h r.2
          × All (λ u. Offered u r.1 (waiting h u)) ss
    unfolding each_send_and_recv
    each-Conserves [] recv h = ((recv, [], h), refl, unchanged h h refl (λ u. refl), tt)
    each-Conserves (s ∷ ss) recv h =
        let (r, done, first, here) = one-Conserves s h in
        let (q, rest, second, all) = each-Conserves ss (recv || r.0) r.2 in
        (
          (q.0, sent_by s r.1 ++ q.1, q.2),
          rw (done, rest) refl,
          Conserves-then asked (sent_by s r.1) q.1 h r.2 q.2 first second,
          (
            Offered-append s (sent_by s r.1) q.1 (waiting h s) here,
            later_offers (sent_by s r.1) q.1 h r.2 first ss all,
          ),
        )
