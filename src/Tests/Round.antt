-- ===== src/Tests/Round.antt =====
-- A round of a server whose callback answers on another socket.
use native.Mathlib.Decide.{ℕ_discrete}
use cpp_exchange.Prelude.{
  ℕ, ◌≡◌, ◌+◌, refl, sym, ap, ◌∙◌, subst, none, some, Bool-cases, inl, inr, List, [], ◌∷◌, ◌++◌,
  All, append-nil, update, update_self, update_ne, leb, arith,
}
use cpp_exchange.Outcome.{Outcome, ok, exited, undefined, out_of_fuel}
use cpp_exchange.TcpSocket.{TcpSocket, Host, Recvmsg, RecvCallback, send, outgoing, tcp_buffer_size}
use cpp_exchange.TcpSocket.Buffers.{outgoing-send}
use cpp_exchange.TcpServer
use cpp_exchange.TcpServer.Sent.{Conserves, Offered, waiting}
use cpp_exchange.TcpServer.Sending.{Writes}
use cpp_exchange.TcpServer.Rounds.{Dispatched, send_and_recv-Conserves}
use cpp_exchange.Tests.Sockets.{socket, server}

-- What the callback has asked to send, by socket.
abbrev Asked : Type 0
Asked = ℕ → List ℕ

-- After a `send` of 9 to socket 2, if it was possible.
abbrev note : Outcome TcpSocket → Host Asked → Host Asked
note (ok s) h = record {
  sockets = update h.sockets 2 s;
  others = update h.others 2 (h.others 2 ++ 9 ∷ []);
}
note exited h = h
note undefined h = h
note out_of_fuel h = h

-- Whatever socket has read, 9 goes to socket 2 if there is room.
abbrev reply : RecvCallback Asked
reply s t h = ok (note (send (h.sockets 2) (9 ∷ [])) h)

abbrev recvmsg : ℕ → Recvmsg Asked
recvmsg s n w = (some (7 ∷ [], none), w)

nothing-Conserves : (h : Host Asked) → Conserves (λ a. a) [] h h
nothing-Conserves h u = ([], sym (append-nil (h.others u)), sym (append-nil (waiting h u)))

reply-Writes : Writes recvmsg reply (λ a. a)
unfolding send
reply-Writes s t h =
    elim (Bool-cases (leb ((h.sockets 2).next_send_valid_index + 1) tcp_buffer_size)) [
      | inl fits ↦
          let (s', done, out, _) = outgoing-send (h.sockets 2) (9 ∷ []) (ground arith) in
          (
            note (ok s') h,
            ap (λ (o : Outcome TcpSocket). ok (note o h)) done,
            λ u. elim (ℕ_discrete u 2) [
              | yes same ↦ (
                9 ∷ [],
                subst (λ k. update h.others 2 (h.others 2 ++ 9 ∷ []) k ≡ h.others k ++ 9 ∷ [])
                    (sym same) (update_self h.others 2 (h.others 2 ++ 9 ∷ [])),
                subst (λ k. outgoing (update h.sockets 2 s' k) ≡ waiting h k ++ 9 ∷ []) (sym same)
                    (ap outgoing (update_self h.sockets 2 s') ∙ out),
              )
              | no other ↦ (
                [],
                update_ne h.others 2 u (h.others 2 ++ 9 ∷ []) other ∙ sym (append-nil (h.others u)),
                ap outgoing (update_ne h.sockets 2 u s' other) ∙ sym (append-nil (waiting h u)),
              )
            ],
          )
      | inr full ↦ (h, rw full refl, nothing-Conserves h)
    ]

abbrev host : Host Asked
host = record { sockets = λ _. socket; others = λ _. [] }

send_and_recv-Conserves_example :
    (calls : List (ℕ × List ℕ)) × (h' mid : Host Asked) × (TcpServer.send_and_recv recvmsg reply
        (λ h. ok h)
        server
        host
      ≡ ok (calls, h'))
    × Dispatched recvmsg reply (λ h. ok h) server host mid
    × Conserves (λ a. a) calls host h'
    × All (λ u. Offered u calls (outgoing socket)) (1 ∷ 2 ∷ [])
    × All
        (λ u.
          (extra : List ℕ) × (mid.others u ≡ extra) × Offered u calls (outgoing socket ++ extra))
        (2 ∷ [])
send_and_recv-Conserves_example =
    send_and_recv-Conserves recvmsg reply (λ h. ok h) server (λ a. a) host reply-Writes
      (λ s n w. refl) (λ h. (h, refl, nothing-Conserves h))
