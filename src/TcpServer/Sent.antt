-- ===== src/TcpServer/Sent.antt =====
-- communication/tcp_server.h: what a round of `sendAndRecv` over all sockets gives to `::send`.
use cpp_exchange.Prelude.{
  ℕ, ◌≡◌, refl, sym, ap, ◌∙◌, Bool-cases, inl, inr, List, [], ◌∷◌, ◌++◌, append_assoc,
  if◌then◌else◌, ◌==◌,
}
use cpp_exchange.TcpSocket.{Host, outgoing}

-- The bytes that `::send` was given for the socket `u`, in order.
abbrev pub sent_to : (u : ℕ) → List (ℕ × List ℕ) → List ℕ
sent_to u [] = []
sent_to u ((s, bytes) ∷ calls) =
    let rest = sent_to u calls in if s == u then bytes ++ rest else rest

-- What `::send` was given for the socket begins with the bytes.
abbrev pub Offered : (u : ℕ) → List (ℕ × List ℕ) → List ℕ → Type 0
Offered u calls bytes = (rest : List ℕ) × (sent_to u calls ≡ bytes ++ rest)

pub sent_to-append :
    (u : ℕ) (xs ys : List (ℕ × List ℕ)) → sent_to u (xs ++ ys) ≡ sent_to u xs ++ sent_to u ys
sent_to-append u [] ys = refl
sent_to-append u ((s, bytes) ∷ xs) ys = elim (Bool-cases (s == u)) [
  | inl same ↦ rw same (
      ap (λ r. bytes ++ r) (sent_to-append u xs ys)
      ∙ sym (append_assoc bytes (sent_to u xs) (sent_to u ys)))
  | inr other ↦ rw other (sent_to-append u xs ys)
]

pub Offered-append :
    (u : ℕ) (xs ys : List (ℕ × List ℕ)) (bytes : List ℕ)
    → Offered u xs bytes
    → Offered u (xs ++ ys) bytes
Offered-append u xs ys bytes (rest, e) = (
  rest ++ sent_to u ys,
  sent_to-append u xs ys ∙ ap (λ r. r ++ sent_to u ys) e ∙ append_assoc bytes rest (sent_to u ys),
)

module _ {W : Type 0} where
  -- The bytes that wait in the socket `u`.
  abbrev pub waiting : Host W → ℕ → List ℕ
  waiting h u = outgoing (h.sockets u)

  -- `asked w u` are the bytes that the callbacks have asked to send to the socket `u` so far.
  module _ (asked : W → ℕ → List ℕ) where
    -- No byte is lost or changes its place: what `::send` was given and then what waits is what
    -- waited before and then what the callbacks have asked to send.
    abbrev pub Conserves : List (ℕ × List ℕ) → Host W → Host W → Type 0
    Conserves calls h h' =
        (u : ℕ)
        → (extra : List ℕ) × (asked h'.others u ≡ asked h.others u ++ extra)
          × (sent_to u calls ++ waiting h' u ≡ waiting h u ++ extra)

    pub Conserves-then :
        (xs ys : List (ℕ × List ℕ)) (h h1 h2 : Host W)
        → Conserves xs h h1
        → Conserves ys h1 h2
        → Conserves (xs ++ ys) h h2
    Conserves-then xs ys h h1 h2 first second u =
        let (e1, asked1, kept1) = first u in
        let (e2, asked2, kept2) = second u in
        (
          e1 ++ e2,
          asked2 ∙ ap (λ l. l ++ e2) asked1 ∙ append_assoc (asked h.others u) e1 e2,
          ap (λ l. l ++ waiting h2 u) (sent_to-append u xs ys)
              ∙ append_assoc (sent_to u xs) (sent_to u ys) (waiting h2 u)
              ∙ ap (λ l. sent_to u xs ++ l) kept2
              ∙ sym (append_assoc (sent_to u xs) (waiting h1 u) e2)
              ∙ ap (λ l. l ++ e2) kept1
              ∙ append_assoc (waiting h u) e1 e2,
        )

    -- What waits at a later time and is then offered, is offered behind what waited before and what
    -- the callbacks have asked for until then.
    pub Offered-behind :
        (u : ℕ) (xs ys : List (ℕ × List ℕ)) (h h1 : Host W)
        → Conserves xs h h1
        → Offered u ys (waiting h1 u)
        → (extra : List ℕ) × (asked h1.others u ≡ asked h.others u ++ extra)
          × Offered u (xs ++ ys) (waiting h u ++ extra)
    Offered-behind u xs ys h h1 conserved (rest, e) =
        let (extra, same, kept) = conserved u in
        (
          extra,
          same,
          (
            rest,
            sent_to-append u xs ys
                ∙ ap (λ l. sent_to u xs ++ l) e
                ∙ sym (append_assoc (sent_to u xs) (waiting h1 u) rest)
                ∙ ap (λ l. l ++ rest) kept,
          ),
        )

    pub Offered-later :
        (u : ℕ) (xs ys : List (ℕ × List ℕ)) (h h1 : Host W)
        → Conserves xs h h1
        → Offered u ys (waiting h1 u)
        → Offered u (xs ++ ys) (waiting h u)
    Offered-later u xs ys h h1 conserved offered =
        let (extra, _, (rest, e)) = Offered-behind u xs ys h h1 conserved offered in
        (extra ++ rest, e ∙ append_assoc (waiting h u) extra rest)
