-- ===== src/SocketUtils/SetUp.antt =====
-- communication/socket_utils.h: the calls that `createSocket` makes.
use cpp_exchange.Prelude.{
  ℕ, ◌+◌, ◌^◌, ◌≡◌, refl, sym, ap, ◌∙◌, true, false, not, ◌&&◌, Bool-cases, inl, inr, some, List,
  [], ◌∷◌, ◌++◌, if◌then◌else◌,
}
use cpp_exchange.Outcome
use cpp_exchange.Outcome.{Outcome, ok, exited}
use cpp_exchange.SocketUtils.{
  value, not_one, SocketCfg, max_tcp_server_backlog, AddrInfo, BindAddress, tcp_nodelay,
  so_timestamp, so_reuseaddr, resolved, create_sockaddr_in, Call, socket, get_flags, set_flags,
  set_option, connect, bind, listen, System, has_bit, set_non_blocking, disable_nagle,
  set_so_timestamp, disable_nagle_if_tcp, connect_if_not_listening, reuse_if_listening,
  bind_if_listening, listen_if_tcp_listening, timestamp_if_needed, open_first, address_text,
  create_socket, Step, ◌>>◌, pure,
}

-- The calls `cs`, made in order after `calls`.
abbrev pub made : (cs calls : List Call) → List Call
made [] calls = calls
made (c ∷ cs) calls = made cs (c ∷ calls)

made-append : (cs ds calls : List Call) → made (cs ++ ds) calls ≡ made ds (made cs calls)
made-append [] ds calls = refl
made-append (c ∷ cs) ds calls = made-append cs ds (c ∷ calls)

-- The system opens the socket `fd`, whose flags `flags` lack O_NONBLOCK, and grants what is asked
-- for that socket, except that it may refuse to connect it.
pub record Willing (system : System) (fd flags : ℕ) : Type 0 where
  pub opens : (cs : List Call) (f s p : ℕ) → system.answer cs (socket f s p) ≡ value fd
  pub reads_flags : (cs : List Call) → system.answer cs (get_flags (value fd)) ≡ value flags
  pub blocking : has_bit flags system.nonblock_bit ≡ false
  pub sets_flags : (cs : List Call) (n : ℕ) → system.answer cs (set_flags (value fd) n) ≡ value 0
  pub sets_nodelay :
      (cs : List Call) → system.answer cs (set_option (value fd) tcp_nodelay) ≡ value 0
  pub sets_timestamp :
      (cs : List Call) → system.answer cs (set_option (value fd) so_timestamp) ≡ value 0
  pub sets_reuse :
      (cs : List Call) → system.answer cs (set_option (value fd) so_reuseaddr) ≡ value 0
  pub binds : (cs : List Call) (a : BindAddress) → system.answer cs (bind (value fd) a) ≡ value 0
  pub listens : (cs : List Call) (n : ℕ) → system.answer cs (listen (value fd) n) ≡ value 0
  pub connects : (cs : List Call) (a : ℕ) → not_one (system.answer cs (connect (value fd) a)) ≡ true

-- The calls that a socket for the configuration needs, by its kind.
abbrev pub nodelay_part : SocketCfg → (fd : ℕ) → List Call
nodelay_part cfg fd = if cfg.is_udp then [] else set_option (value fd) tcp_nodelay ∷ []

abbrev pub connect_part : SocketCfg → AddrInfo → (fd : ℕ) → List Call
connect_part cfg rp fd = if cfg.is_listening then [] else connect (value fd) rp.address ∷ []

abbrev pub reuse_part : SocketCfg → (fd : ℕ) → List Call
reuse_part cfg fd = if cfg.is_listening then set_option (value fd) so_reuseaddr ∷ [] else []

abbrev pub bind_part : SocketCfg → AddrInfo → (fd : ℕ) → List Call
bind_part cfg rp fd =
    if cfg.is_listening
    then bind (value fd) (if cfg.is_udp then create_sockaddr_in cfg.port else resolved rp.address)
      ∷ []
    else []

abbrev pub listen_part : SocketCfg → (fd : ℕ) → List Call
listen_part cfg fd =
    if not cfg.is_udp && cfg.is_listening then listen (value fd) max_tcp_server_backlog ∷ [] else []

abbrev pub timestamp_part : SocketCfg → (fd : ℕ) → List Call
timestamp_part cfg fd =
    if cfg.needs_so_timestamp then set_option (value fd) so_timestamp ∷ [] else []

abbrev pub later_part : SocketCfg → AddrInfo → (fd : ℕ) → List Call
later_part cfg rp fd =
    nodelay_part cfg fd
    ++ (connect_part cfg rp fd
        ++ (reuse_part cfg fd
            ++ (bind_part cfg rp fd ++ (listen_part cfg fd ++ timestamp_part cfg fd))))

abbrev pub set_up : System → SocketCfg → AddrInfo → (fd flags : ℕ) → List Call
set_up system cfg rp fd flags =
    (socket rp.family rp.socktype rp.protocol
      ∷ get_flags (value fd)
      ∷ set_flags (value fd) (flags + 2 ^ system.nonblock_bit)
      ∷ [])
    ++ later_part cfg rp fd

module _ (system : System) (cfg : SocketCfg) (rp : AddrInfo) (fd flags : ℕ)
    (w : Willing system fd flags) where
  -- The step of the loop makes the calls, and goes on.
  abbrev Makes : Step (Unit {0}) → List Call → Type 0
  Makes step part = (calls : List Call) → step calls ≡ ok (tt, made part calls)

  nodelay-Makes : Makes (disable_nagle_if_tcp system cfg (value fd)) (nodelay_part cfg fd)
  unfolding disable_nagle_if_tcp disable_nagle
  nodelay-Makes calls = elim (Bool-cases cfg.is_udp) [
    | inl udp ↦ rw udp refl
    | inr tcp ↦ rw (tcp, w.sets_nodelay calls) refl
  ]

  connect-Makes : Makes (connect_if_not_listening system cfg rp (value fd)) (connect_part cfg rp fd)
  unfolding connect_if_not_listening
  connect-Makes calls = elim (Bool-cases cfg.is_listening) [
    | inl listens ↦ rw listens refl
    | inr connects ↦ rw (connects, w.connects calls rp.address) refl
  ]

  reuse-Makes : Makes (reuse_if_listening system cfg (value fd)) (reuse_part cfg fd)
  unfolding reuse_if_listening
  reuse-Makes calls = elim (Bool-cases cfg.is_listening) [
    | inl listens ↦ rw (listens, w.sets_reuse calls) refl
    | inr connects ↦ rw connects refl
  ]

  bind-Makes : Makes (bind_if_listening system cfg rp (value fd)) (bind_part cfg rp fd)
  unfolding bind_if_listening
  bind-Makes calls = elim (Bool-cases cfg.is_listening) [
    | inl listens ↦
        rw
          (
            listens,
            w.binds calls (if cfg.is_udp then create_sockaddr_in cfg.port else resolved rp.address),
          )
          refl
    | inr connects ↦ rw connects refl
  ]

  listen-Makes : Makes (listen_if_tcp_listening system cfg (value fd)) (listen_part cfg fd)
  unfolding listen_if_tcp_listening
  listen-Makes calls = elim (Bool-cases (not cfg.is_udp && cfg.is_listening)) [
    | inl listens ↦ rw (listens, w.listens calls max_tcp_server_backlog) refl
    | inr other ↦ rw other refl
  ]

  timestamp-Makes : Makes (timestamp_if_needed system cfg (value fd)) (timestamp_part cfg fd)
  unfolding timestamp_if_needed set_so_timestamp
  timestamp-Makes calls = elim (Bool-cases cfg.needs_so_timestamp) [
    | inl needed ↦ rw (needed, w.sets_timestamp calls) refl
    | inr plain ↦ rw plain refl
  ]

  -- One step, and what follows it.
  Makes-then :
      {A : Type 0} (a : A) (step : Step (Unit {0})) (next : Step A) (part rest : List Call)
      → Makes step part
      → ((calls : List Call) → next calls ≡ ok (a, made rest calls))
      → (calls : List Call) → (step >> next) calls ≡ ok (a, made (part ++ rest) calls)
  Makes-then a step next part rest first second calls =
      ap (λ (r : Outcome (Unit {0} × List Call)). Outcome.◌>>=◌ r (λ k. next k.1)) (first calls)
      ∙ second (made part calls)
      ∙ ap (λ (cs : List Call). ok (a, cs)) (sym (made-append part rest calls))

  -- The steps behind the opening of the socket.
  rest_of_set_up :
      (calls : List Call)
      → (disable_nagle_if_tcp system cfg (value fd)
            >> (connect_if_not_listening system cfg rp (value fd)
                >> (reuse_if_listening system cfg (value fd)
                    >> (bind_if_listening system cfg rp (value fd)
                        >> (listen_if_tcp_listening system cfg (value fd)
                            >> (timestamp_if_needed system cfg (value fd) >> pure (value fd)))))))
          calls
        ≡ ok (value fd, made (later_part cfg rp fd) calls)
  rest_of_set_up =
      let stamp = timestamp_if_needed system cfg (value fd) >> pure (value fd) in
      let listening = listen_if_tcp_listening system cfg (value fd) >> stamp in
      let binding = bind_if_listening system cfg rp (value fd) >> listening in
      let reusing = reuse_if_listening system cfg (value fd) >> binding in
      let connecting = connect_if_not_listening system cfg rp (value fd) >> reusing in
      let t = timestamp_part cfg fd in
      let l = listen_part cfg fd ++ t in
      let b = bind_part cfg rp fd ++ l in
      let r = reuse_part cfg fd ++ b in
      let k = connect_part cfg rp fd ++ r in
      Makes-then (value fd) (disable_nagle_if_tcp system cfg (value fd)) connecting
        (nodelay_part cfg fd) k nodelay-Makes
        (Makes-then (value fd) (connect_if_not_listening system cfg rp (value fd)) reusing
          (connect_part cfg rp fd) r connect-Makes
          (Makes-then (value fd) (reuse_if_listening system cfg (value fd)) binding
            (reuse_part cfg fd) b reuse-Makes
            (Makes-then (value fd) (bind_if_listening system cfg rp (value fd)) listening
              (bind_part cfg rp fd) l bind-Makes
              (Makes-then (value fd) (listen_if_tcp_listening system cfg (value fd)) stamp
                (listen_part cfg fd) t listen-Makes
                (λ calls.
                  ap
                    (λ (x : Outcome (Unit {0} × List Call)).
                      Outcome.◌>>=◌ x (λ y. ok (value fd, y.1)))
                    (timestamp-Makes calls))))))

  set_non_blocking-sets :
      (calls : List Call)
      → set_non_blocking system (value fd) calls
        ≡ ok (
          true,
          set_flags (value fd) (flags + 2 ^ system.nonblock_bit) ∷ get_flags (value fd) ∷ calls,
        )
  unfolding set_non_blocking
  set_non_blocking-sets calls =
      rw
        (
          w.reads_flags calls,
          w.blocking,
          w.sets_flags (get_flags (value fd) ∷ calls) (flags + 2 ^ system.nonblock_bit),
        )
        refl

  -- Where getaddrinfo finds `rp` first and the system grants what is asked, `createSocket` makes
  -- exactly the calls that the kind of the socket needs, in their order, for that address alone, and
  -- returns the socket. A call of connect may return anything but 1, so also -1, which is its error:
  -- a socket that is not connected is returned as one that is.
  pub create_socket-set_up :
      (rps : List AddrInfo) (calls : List Call)
      → system.getaddrinfo
          (address_text system cfg.ip cfg.iface)
          cfg.port
          (record { passive = cfg.is_listening; datagram = cfg.is_udp })
        ≡ some (rp ∷ rps)
      → create_socket system cfg calls ≡ ok (value fd, made (set_up system cfg rp fd flags) calls)
  unfolding create_socket open_first
  create_socket-set_up rps calls found =
      let opened = socket rp.family rp.socktype rp.protocol ∷ calls in
      rw (create_socket, found)
        (rw (w.opens calls rp.family rp.socktype rp.protocol) (
          rw (set_non_blocking-sets opened) (
            rest_of_set_up (
              set_flags (value fd) (flags + 2 ^ system.nonblock_bit)
              ∷ get_flags (value fd)
              ∷ opened))))
