-- ===== src/TcpSocket/Buffers.antt =====
-- communication/tcp_socket.h: the bytes that wait to be sent.
use cpp_exchange.Prelude.{
  ℕ, zero, suc, ◌+◌, ◌-◌, ◌≤◌, ◌≢◌, update_ne, ◌<◌, ◌≡◌, refl, ap, ap₂, sym, subst, ◌∙◌, List, [],
  ◌∷◌, ◌++◌, length, update, arith, update_self, Option, some, none, true, false, leb, ltb,
}
use cpp_exchange.Outcome.{ok, ◌>>=◌}
use cpp_exchange.TcpSocket.{
  TcpSocket, tcp_buffer_size, memcpy, slice, send, outgoing, send_and_recv, receive, handle_read,
  send_pending, Host, Recvmsg, RecvCallback,
}

memcpy-before : (f : ℕ → ℕ) (i k : ℕ) (bytes : List ℕ) → k < i → memcpy f i bytes k ≡ f k
unfolding memcpy
memcpy-before f i k [] h = refl
memcpy-before f i k (b ∷ bytes) h =
    memcpy-before (update f i b) (suc i) k bytes (omega arith) ∙ (ground arith)

slice-memcpy_before :
    (f : ℕ → ℕ) (i j n : ℕ) (bytes : List ℕ)
    → j + n ≤ i
    → slice (memcpy f i bytes) j n ≡ slice f j n
slice-memcpy_before f i j zero bytes h = refl
slice-memcpy_before f i j (suc n) bytes h =
    ap₂ (λ x xs. x ∷ xs) (memcpy-before f i j bytes (omega arith))
      (slice-memcpy_before f i (suc j) n bytes (omega arith))

slice-memcpy :
    (f : ℕ → ℕ) (i : ℕ) (bytes : List ℕ) → slice (memcpy f i bytes) i (length bytes) ≡ bytes
unfolding memcpy
slice-memcpy f i [] = refl
slice-memcpy f i (b ∷ bytes) =
    ap₂ (λ x xs. x ∷ xs)
      (memcpy-before (update f i b) (suc i) i bytes (omega arith) ∙ update_self f i b)
      (slice-memcpy (update f i b) (suc i) bytes)

slice-add : (f : ℕ → ℕ) (i m n : ℕ) → slice f i (m + n) ≡ slice f i m ++ slice f (i + m) n
slice-add f i zero n = ap₂ (λ j k. slice f j k) (omega arith) (omega arith)
slice-add f i (suc m) n =
    let e : suc m + n ≡ suc (m + n) = omega arith in
    let k : suc i + m ≡ i + suc m = omega arith in
    ap (slice f i) e
    ∙ ap (λ xs. f i ∷ xs) (slice-add f (suc i) m n ∙ ap (λ j. slice f (suc i) m ++ slice f j n) k)

written :
    (s : TcpSocket) (bytes : List ℕ)
    → let n = s.next_send_valid_index in
      slice (memcpy s.outbound_data n bytes) 0 (n + length bytes) ≡ outgoing s ++ bytes
unfolding outgoing
written s bytes =
    let n = s.next_send_valid_index in
    let f = memcpy s.outbound_data n bytes in
    slice-add f 0 n (length bytes)
    ∙ ap₂ (λ xs ys. xs ++ ys) (slice-memcpy_before s.outbound_data n 0 n bytes (omega arith))
        (ap (λ i. slice f i (length bytes)) (omega arith) ∙ slice-memcpy s.outbound_data n bytes)

-- A `send` that fits in the buffer puts its bytes behind those that wait, and leaves what was read.
pub outgoing-send :
    (s : TcpSocket) (bytes : List ℕ)
    → s.next_send_valid_index + length bytes ≤ tcp_buffer_size
    → (s' : TcpSocket) × (send s bytes ≡ ok s')
      × (outgoing s' ≡ outgoing s ++ bytes)
      × (s'.inbound_data ≡ s.inbound_data)
unfolding send outgoing
outgoing-send s bytes fits =
    let n = s.next_send_valid_index in
    let t : leb (n + length bytes) tcp_buffer_size ≡ true = ground arith in
    let f = memcpy s.outbound_data n bytes in
    (
      record s { outbound_data = f; next_send_valid_index = n + length bytes },
      rw t refl,
      written s bytes,
      refl,
    )

module _ {W : Type 0} (i : ℕ) (h : Host W) where
  -- Nothing is read.
  receive-none :
      (recvmsg : Recvmsg W) (recv_callback : RecvCallback W)
      → let room = tcp_buffer_size - (h.sockets i).next_rcv_valid_index in
        (recvmsg room h.others).0 ≡ none
        → receive recvmsg recv_callback i h
          ≡ ok (false, record h { others = (recvmsg room h.others).1 })
  unfolding receive handle_read
  receive-none recvmsg recv_callback quiet =
      let others = (recvmsg (tcp_buffer_size - (h.sockets i).next_rcv_valid_index) h.others).1 in
      ap (λ read. handle_read recv_callback i read (record h { others = others })) quiet

  -- Something waits, and is given to `::send`.
  send_pending-some :
      (s : TcpSocket)
      → h.sockets i ≡ s
      → 0 < s.next_send_valid_index
      → (send_pending i h).0 ≡ some (outgoing s)
  unfolding send_pending
  send_pending-some s at more =
      let waits : ltb 0 (h.sockets i).next_send_valid_index ≡ true =
        subst (λ (k : TcpSocket). ltb 0 k.next_send_valid_index ≡ true) (sym at) (ground arith) in
      rw waits (ap (λ (k : TcpSocket). some (outgoing k)) at)

  pub send_pending-rest : outgoing ((send_pending i h).1.sockets i) ≡ []
  unfolding send_pending outgoing
  send_pending-rest =
      ap outgoing (update_self h.sockets i (record (h.sockets i) { next_send_valid_index = 0 }))

  pub send_pending-other : (j : ℕ) → j ≢ i → (send_pending i h).1.sockets j ≡ h.sockets j
  unfolding send_pending
  send_pending-other j ne =
      update_ne h.sockets i j (record (h.sockets i) { next_send_valid_index = 0 }) ne

-- When nothing can be read, `sendAndRecv` after a `send` that fits gives the operating system the
-- bytes that waited with the new ones behind, once: afterwards none wait, and all other sockets are
-- as they were.
pub send_and_recv-outgoing :
    {W : Type 0} (recvmsg : Recvmsg W) (recv_callback : RecvCallback W) (i : ℕ) (h : Host W)
    (bytes : List ℕ)
    → ((room : ℕ) (w : W) → (recvmsg room w).0 ≡ none)
    → (h.sockets i).next_send_valid_index + length bytes ≤ tcp_buffer_size
    → 0 < (h.sockets i).next_send_valid_index + length bytes
    → (h2 : Host W) × ((send (h.sockets i) bytes >>= λ s.
          send_and_recv recvmsg recv_callback i (record h { sockets = update h.sockets i s }))
        ≡ ok (false, some (outgoing (h.sockets i) ++ bytes), h2))
      × (outgoing (h2.sockets i) ≡ [])
      × ((j : ℕ) → j ≢ i → h2.sockets j ≡ h.sockets j)
unfolding send send_and_recv outgoing
send_and_recv-outgoing recvmsg recv_callback i h bytes quiet fits more =
    let n = (h.sockets i).next_send_valid_index in
    let s1 = record (h.sockets i) {
      outbound_data = memcpy (h.sockets i).outbound_data n bytes;
      next_send_valid_index = n + length bytes;
    } in
    let h1 = record h { sockets = update h.sockets i s1 } in
    let t : leb (n + length bytes) tcp_buffer_size ≡ true = ground arith in
    let h2 = record h1 {
      others = (recvmsg (tcp_buffer_size - (h1.sockets i).next_rcv_valid_index) h.others).1;
    } in
    let at : h2.sockets i ≡ s1 = update_self h.sockets i s1 in
    let none_read =
      receive-none i h1 recvmsg recv_callback
        (quiet (tcp_buffer_size - (h1.sockets i).next_rcv_valid_index) h.others) in
    (
      (send_pending i h2).1,
      rw (t, none_read)
          (ap (λ (sent : Option (List ℕ)). ok (false, sent, (send_pending i h2).1))
            (send_pending-some i h2 s1 at more ∙ ap some (written (h.sockets i) bytes))),
      send_pending-rest i h2,
      λ j ne. send_pending-other i h2 j ne ∙ update_ne h.sockets i j s1 ne,
    )
