-- ===== src/SocketUtils.antt =====
-- communication/socket_utils.h: how a socket is set up. The operating system is a parameter: what it
-- answers to a call may depend on the calls before. A string is the list of its characters' codes, and a port is not negative.
pub mod SetUp
use cpp_exchange.Prelude.{
  ℕ, ◌+◌, ◌/◌, ◌%◌, ◌^◌, Bool, true, false, not, Option, none, some, List, [], ◌∷◌, ◌++◌, ◌==◌,
  ◌&&◌, ◌||◌, if◌then◌else◌,
}
use cpp_exchange.Outcome
use cpp_exchange.Outcome.{Outcome, ok, assert}

-- What a call returns: `minus_one` for -1.
pub data Status : Type 0 where
  minus_one : Status
  value : ℕ → Status

-- The tests `status != -1`, `status == 0` and `status != 1`.
abbrev pub not_minus_one : Status → Bool
not_minus_one minus_one = false
not_minus_one (value n) = true

abbrev pub is_zero : Status → Bool
is_zero minus_one = false
is_zero (value n) = n == 0

abbrev pub not_one : Status → Bool
not_one minus_one = true
not_one (value n) = not (n == 1)

pub record SocketCfg : Type 0 where
  pub ip : List ℕ
  pub iface : List ℕ
  pub port : ℕ
  pub is_udp : Bool
  pub is_listening : Bool
  pub needs_so_timestamp : Bool

abbrev pub max_tcp_server_backlog : ℕ
max_tcp_server_backlog = 1024

-- An interface: its name, whether it has an address of the family AF_INET, and the text that
-- getnameinfo has for the address.
pub record Interface : Type 0 where
  pub name : List ℕ
  pub is_inet : Bool
  pub host : List ℕ

-- The fields of `addrinfo` that are read; an address is a number.
pub record AddrInfo : Type 0 where
  pub family : ℕ
  pub socktype : ℕ
  pub protocol : ℕ
  pub address : ℕ

-- AI_PASSIVE, and whether the socket is for UDP; AF_INET, AI_NUMERICHOST and AI_NUMERICSERV are
-- always set.
pub record Hints : Type 0 where
  pub passive : Bool
  pub datagram : Bool

pub data SocketOption : Type 0 where
  tcp_nodelay so_timestamp so_reuseaddr : SocketOption

-- The address that `bind` is given: one of getaddrinfo, or any address with a port.
pub data BindAddress : Type 0 where
  resolved : (address : ℕ) → BindAddress
  any_address : (port : ℕ) → BindAddress

-- The port is converted to 16 bits.
unfoldable pub create_sockaddr_in : (port : ℕ) → BindAddress
create_sockaddr_in port = any_address (port % 2 ^ 16)

-- The calls of the operating system that act on a socket.
pub data Call : Type 0 where
  socket : (family socktype protocol : ℕ) → Call
  get_flags : Status → Call
  set_flags : Status → ℕ → Call
  set_option : Status → SocketOption → Call
  connect : Status → (address : ℕ) → Call
  bind : Status → BindAddress → Call
  listen : Status → (backlog : ℕ) → Call

-- The operating system: `answer calls c` is what the call `c` returns after `calls`, the latest
-- first; O_NONBLOCK is 2 ^ nonblock_bit; `none` where getifaddrs or getaddrinfo fails.
pub record System : Type 0 where
  pub answer : List Call → Call → Status
  pub nonblock_bit : ℕ
  pub getifaddrs : Option (List Interface)
  pub getaddrinfo : List ℕ → ℕ → Hints → Option (List AddrInfo)

-- A step takes the calls made so far, the latest first, and adds its own.
abbrev pub Step : Type 0 → Type 0
Step A = List Call → Outcome (A × List Call)

abbrev pub pure : {A : Type 0} → A → Step A
pure a calls = ok (a, calls)

infixl 5 ◌>>=◌ ◌>>◌
abbrev pub ◌>>=◌ : {A B : Type 0} → Step A → (A → Step B) → Step B
◌>>=◌ m f calls = Outcome.◌>>=◌ (m calls) (λ r. f r.0 r.1)

abbrev pub ◌>>◌ : {B : Type 0} → Step (Unit {0}) → Step B → Step B
m >> k = m >>= λ _. k

abbrev pub check : Bool → Step (Unit {0})
check b calls = Outcome.◌>>=◌ (assert b) (λ u. ok (u, calls))

unfoldable pub same_text : List ℕ → List ℕ → Bool
same_text [] [] = true
same_text (a ∷ as_) (b ∷ bs) = let rest = same_text as_ bs in (a == b) && rest
same_text xs ys = false

-- The loop of `getIfaceIP`: the text of the first address of the interface, or nothing.
unfoldable pub find_host : (iface : List ℕ) → List Interface → List ℕ
unfolding same_text
find_host iface [] = []
find_host iface (i ∷ is) =
    let rest = find_host iface is in if i.is_inet && same_text iface i.name then i.host else rest

unfoldable pub get_iface_ip : System → List ℕ → List ℕ
unfolding find_host
get_iface_ip system iface = elim system.getifaddrs [ none ↦ [] | some is ↦ find_host iface is ]

abbrev pub has_bit : (flags bit : ℕ) → Bool
has_bit flags bit = (flags / 2 ^ bit) % 2 == 1

module _ (system : System) where
  abbrev pub perform : Call → Step Status
  perform c calls = ok (system.answer calls c, c ∷ calls)

  -- All bits of -1 are set, O_NONBLOCK included.
  unfoldable pub set_non_blocking : (fd : Status) → Step Bool
  set_non_blocking fd = do
    flags ← perform (get_flags fd)
    elim flags [
      | minus_one ↦ pure true
      | value n ↦
          let bit = system.nonblock_bit in
          if has_bit n bit
          then pure true
          else (do done ← perform (set_flags fd (n + 2 ^ bit)); pure (not_minus_one done))
    ]

  unfoldable pub disable_nagle : (fd : Status) → Step Bool
  disable_nagle fd = do done ← perform (set_option fd tcp_nodelay); pure (not_minus_one done)

  unfoldable pub set_so_timestamp : (fd : Status) → Step Bool
  set_so_timestamp fd = do done ← perform (set_option fd so_timestamp); pure (not_minus_one done)

  -- The steps of the body of `createSocket`'s loop, each under its own test of the configuration.
  unfoldable pub disable_nagle_if_tcp : SocketCfg → (fd : Status) → Step (Unit {0})
  disable_nagle_if_tcp cfg fd =
      if cfg.is_udp then pure tt else (do done ← disable_nagle fd; check done)

  unfoldable pub connect_if_not_listening : SocketCfg → AddrInfo → (fd : Status) → Step (Unit {0})
  connect_if_not_listening cfg rp fd =
      if cfg.is_listening
      then pure tt
      else (do done ← perform (connect fd rp.address); check (not_one done))

  unfoldable pub reuse_if_listening : SocketCfg → (fd : Status) → Step (Unit {0})
  reuse_if_listening cfg fd =
      if cfg.is_listening
      then (do done ← perform (set_option fd so_reuseaddr); check (is_zero done))
      else pure tt

  unfoldable pub bind_if_listening : SocketCfg → AddrInfo → (fd : Status) → Step (Unit {0})
  bind_if_listening cfg rp fd =
      let address = if cfg.is_udp then create_sockaddr_in cfg.port else resolved rp.address in
      if cfg.is_listening
      then (do done ← perform (bind fd address); check (is_zero done))
      else pure tt

  unfoldable pub listen_if_tcp_listening : SocketCfg → (fd : Status) → Step (Unit {0})
  listen_if_tcp_listening cfg fd =
      if not cfg.is_udp && cfg.is_listening
      then (do done ← perform (listen fd max_tcp_server_backlog); check (is_zero done))
      else pure tt

  unfoldable pub timestamp_if_needed : SocketCfg → (fd : Status) → Step (Unit {0})
  timestamp_if_needed cfg fd =
      if cfg.needs_so_timestamp then (do done ← set_so_timestamp fd; check done) else pure tt

  -- The loop of `createSocket`, which ends after its first round.
  unfoldable pub open_first : SocketCfg → List AddrInfo → Step Status
  open_first cfg [] = pure minus_one
  open_first cfg (rp ∷ rps) = do
    fd ← perform (socket rp.family rp.socktype rp.protocol)
    check (not_minus_one fd)
    unblocked ← set_non_blocking fd
    check unblocked
    disable_nagle_if_tcp cfg fd
    connect_if_not_listening cfg rp fd
    reuse_if_listening cfg fd
    bind_if_listening cfg rp fd
    listen_if_tcp_listening cfg fd
    timestamp_if_needed cfg fd
    pure fd

  -- The address that the configuration gives, or else that of its interface.
  unfoldable pub address_text : (ip iface : List ℕ) → List ℕ
  address_text [] iface = get_iface_ip system iface
  address_text (c ∷ cs) iface = c ∷ cs

  unfoldable pub create_socket : SocketCfg → Step Status
  create_socket cfg =
      let ip = address_text cfg.ip cfg.iface in
      let hints : Hints = record { passive = cfg.is_listening; datagram = cfg.is_udp } in
      elim (system.getaddrinfo ip cfg.port hints) [
        | none ↦ λ calls. Outcome.exited
        | some rps ↦ open_first cfg rps
      ]
