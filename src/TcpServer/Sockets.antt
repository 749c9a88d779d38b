-- ===== src/TcpServer/Sockets.antt =====
-- communication/tcp_server.h: the two lists of sockets of a server.
use cpp_exchange.Prelude.{
  ℕ, ◌≡◌, refl, sym, ap, ◌∙◌, Bool, true, false, Bool-cases, inl, inr, ◌&&◌, ◌==◌, List, [], ◌∷◌,
  ◌++◌, arith, Fresh, Distinct, All, Distinct-snoc, Distinct-join, Apart-sym, append_assoc,
  append-nil,
}
use cpp_exchange.Outcome.{ok}
use cpp_exchange.TcpServer.{
  Event, TcpServer, read, write, contains_socket, add_missing, remove_socket, note_ready,
  drop_failed, is_read, handle_events, accept_all, poll,
}

-- No socket is twice in one of the lists.
pub record IsValid (server : TcpServer) : Type 0 where
  pub receive_distinct : Distinct server.receive_sockets
  pub send_distinct : Distinct server.send_sockets

Fresh-contains_socket : (s : ℕ) (ts : List ℕ) → contains_socket s ts ≡ false → Fresh s ts
unfolding contains_socket
Fresh-contains_socket s [] h = tt
Fresh-contains_socket s (t ∷ ts) h = elim (Bool-cases (s == t)) [
  | inl same ↦ cc (rw same at h)
  | inr apart ↦ (ground arith, Fresh-contains_socket s ts (rw apart at h))
]

add_missing-Distinct : (s : ℕ) (ts : List ℕ) → Distinct ts → Distinct (add_missing s ts)
unfolding add_missing
add_missing-Distinct s ts d = elim (Bool-cases (contains_socket s ts)) [
  | inl here ↦ rw here d
  | inr absent ↦ rw absent (Distinct-snoc s ts (Fresh-contains_socket s ts absent) d)
]

Fresh-remove_socket : (a s : ℕ) (ts : List ℕ) → Fresh a ts → Fresh a (remove_socket s ts)
unfolding remove_socket
Fresh-remove_socket a s [] f = tt
Fresh-remove_socket a s (t ∷ ts) f = elim (Bool-cases (t == s)) [
  | inl same ↦ rw same (Fresh-remove_socket a s ts f.1)
  | inr apart ↦ rw apart (f.0, Fresh-remove_socket a s ts f.1)
]

remove_socket-Distinct : (s : ℕ) (ts : List ℕ) → Distinct ts → Distinct (remove_socket s ts)
unfolding remove_socket
remove_socket-Distinct s [] d = tt
remove_socket-Distinct s (t ∷ ts) d = elim (Bool-cases (t == s)) [
  | inl same ↦ rw same (remove_socket-Distinct s ts d.1)
  | inr apart ↦ rw apart (Fresh-remove_socket t s ts d.0, remove_socket-Distinct s ts d.1)
]

note_ready-IsValid :
    (e : Event) (server : TcpServer) → IsValid server → IsValid (note_ready e server)
unfolding note_ready
note_ready-IsValid e server v =
    elim e.filter as (λ k. IsValid (note_ready (record e { filter = k }) server)) [
      | read ↦ record {
        receive_distinct = add_missing-Distinct e.socket server.receive_sockets v.receive_distinct;
        send_distinct = v.send_distinct;
      }
      | write ↦ record {
        receive_distinct = v.receive_distinct;
        send_distinct = add_missing-Distinct e.socket server.send_sockets v.send_distinct;
      }
    ]

drop_failed-IsValid :
    (e : Event) (server : TcpServer) → IsValid server → IsValid (drop_failed e server)
unfolding drop_failed
drop_failed-IsValid e server v = elim (Bool-cases e.failed) [
  | inl gone ↦ rw gone (record {
    receive_distinct = remove_socket-Distinct e.socket server.receive_sockets v.receive_distinct;
    send_distinct = remove_socket-Distinct e.socket server.send_sockets v.send_distinct;
  })
  | inr fine ↦ rw fine v
]

-- The events of a call of `poll` keep the lists free of repetitions, whatever they are.
pub handle_events-IsValid :
    (es : List Event) (have_new : Bool) (server : TcpServer)
    → IsValid server
    → IsValid (handle_events es have_new server).1
unfolding handle_events
handle_events-IsValid [] have_new server v = v
handle_events-IsValid (e ∷ es) have_new server v =
    elim (Bool-cases (is_read e.filter && (e.socket == server.listener_socket))) [
      | inl skip ↦ rw skip (handle_events-IsValid es true server v)
      | inr go ↦ rw go (
          handle_events-IsValid es have_new (drop_failed e (note_ready e server))
            (drop_failed-IsValid e (note_ready e server) (note_ready-IsValid e server v)))
    ]

accept_all-append :
    (ready : ℕ → Bool) (ss : List ℕ) (server : TcpServer)
    → All (λ s. ready s ≡ true) ss
    → accept_all ready ss server
      ≡ ok (record server { receive_sockets = server.receive_sockets ++ ss })
unfolding accept_all
accept_all-append ready [] server r =
    ap (λ (ts : List ℕ). ok (record server { receive_sockets = ts }))
      (sym (append-nil server.receive_sockets))
accept_all-append ready (s ∷ ss) server r =
    let next = record server { receive_sockets = server.receive_sockets ++ s ∷ [] } in
    rw (r.0) (
      accept_all-append ready ss next r.1
      ∙ ap (λ (ts : List ℕ). ok (record server { receive_sockets = ts }))
          (append_assoc server.receive_sockets (s ∷ []) ss))

-- Where the calls that set a new socket up succeed, and the new sockets are distinct and none of
-- those that the server reads from after the events, a call of `poll` on valid lists returns, with
-- valid lists.
pub poll-IsValid :
    (events : List Event) (ready : ℕ → Bool) (accepted : List ℕ) (server : TcpServer)
    → IsValid server
    → All (λ s. ready s ≡ true) accepted
    → Distinct accepted
    → All (λ s. Fresh s (handle_events events false server).1.receive_sockets) accepted
    → (server' : TcpServer) × (poll events ready accepted server ≡ ok server') × IsValid server'
unfolding poll
poll-IsValid events ready accepted server v set_up distinct fresh =
    let (have_new, handled) = handle_events events false server in
    let v' = handle_events-IsValid events false server v in
    elim (Bool-cases (handle_events events false server).0) [
      | inl more ↦ (
        record handled { receive_sockets = handled.receive_sockets ++ accepted },
        rw more (accept_all-append ready accepted handled set_up),
        record {
          receive_distinct =
              Distinct-join handled.receive_sockets accepted v'.receive_distinct
                (Apart-sym accepted handled.receive_sockets fresh) distinct;
          send_distinct = v'.send_distinct;
        },
      )
      | inr done ↦ (handled, rw done refl, v')
    ]
