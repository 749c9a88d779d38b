-- ===== src/OrderBook/CancelOrder.antt =====
-- cppexchange/orderbook.h: `cancel` on a whole book.
use mathlib.Core.Path.{subst₂}
use mathlib.Core.List.{map-append}
use cpp_exchange.Prelude.{
  ℕ, ◌+◌, ◌≡◌, refl, sym, ap, ap₂, ◌∙◌, subst, some, none, List, ◌∷◌, ◌++◌, All, All-parts, Fresh,
  arith, false,
}
use cpp_exchange.Outcome.{ok}
use cpp_exchange.Types.{trade_id_invalid}
use cpp_exchange.LfQueue.{push}
use cpp_exchange.Order.{OrderSide, is_buy, Order, Ptr}
use cpp_exchange.Messages.{ResponseType, make_response, UpdateType, make_update}
use cpp_exchange.PriceLevel.{top}
use cpp_exchange.PriceLevel.Cancel.{find_id, remove_id}
use cpp_exchange.OrderBook.State.{World, levels, orders, now, respond, publish}
use cpp_exchange.OrderBook.Levels.{get_price_level, get_price_level_index, remove_price_level}
use cpp_exchange.OrderBook.Matching.{crosses, cancel_at}
use cpp_exchange.OrderBook.Entry.{cancel, cancel_in_level, report_cancel}
use cpp_exchange.OrderBook.Pools.{orders-IsValid}
use cpp_exchange.OrderBook.Quiet.{Quiet}
use cpp_exchange.OrderBook.Front.{quantities, opposite_best-same}
use cpp_exchange.OrderBook.Ladder.{Rung, prices, price_of}
use cpp_exchange.OrderBook.Frame.{Rung-Kept}
use cpp_exchange.OrderBook.Rungs.{SameRungs-of, Rungs-apart, Ladder-SameRungs}
use cpp_exchange.OrderBook.Change.{Ladder-Changed}
use cpp_exchange.OrderBook.Priority.{offers}
use cpp_exchange.OrderBook.Place.{Shelf-Rung, quantities-payload}
use cpp_exchange.OrderBook.Sides.{opposite, Book, Uncrossed, Uncrossed-Fresh, price_in_the_middle}
use cpp_exchange.OrderBook.MatchedBook.{Book-book}
use cpp_exchange.OrderBook.Withdraw.{Withdrawn, cancel_at-Withdrawn}

module _ (client_id order_id : ℕ) (asked : OrderSide) (limit_price : ℕ) where
  -- The state after the client and the market are told that the order at `y` is gone.
  abbrev pub told_cancel : (y : ℕ) → World → World
  told_cancel y w =
      let q = (orders w y).quantity in
      let ns = w.clock w.clock_reads in
      record w {
        client_response_queue = push w.client_response_queue (
            make_response ResponseType.canceled w.book.ticker_id client_id order_id asked q
              limit_price ns);
        market_update_queue = push w.market_update_queue (
            make_update UpdateType.remove w.book.ticker_id order_id trade_id_invalid asked q
              limit_price ns);
        clock_reads = w.clock_reads + 1;
      }

  cancel-stays :
      (w w1 : World) (a y b : ℕ)
      → w.book.price_levels limit_price ≡ some a
      → cancel_at a order_id w ≡ ok (some y, w1)
      → (levels w1 a).top_order ≡ some b
      → cancel client_id order_id asked limit_price w ≡ ok (tt, told_cancel y w1)
  unfolding cancel cancel_in_level report_cancel get_price_level get_price_level_index now respond
      publish top
  cancel-stays w w1 a y b level done left = rw (level, done, left) refl

  pub cancel-empties :
      (w w1 w2 : World) (a y : ℕ)
      → w.book.price_levels limit_price ≡ some a
      → cancel_at a order_id w ≡ ok (some y, w1)
      → (levels w1 a).top_order ≡ none
      → remove_price_level a w1 ≡ ok (tt, w2)
      → cancel client_id order_id asked limit_price w ≡ ok (tt, told_cancel y w2)
  unfolding cancel cancel_in_level report_cancel get_price_level get_price_level_index now respond
      publish top
  cancel-empties w w1 w2 a y level done left removed = rw (level, done, left, removed) refl

  -- The client and the market have been told of the order at `y`, with the quantity that it had.
  pub record Cancelled (y : ℕ) (w w' : World) : Type 0 where
    pub responses :
        w'.client_response_queue
        ≡ push w.client_response_queue (
            make_response ResponseType.canceled w.book.ticker_id client_id order_id asked
              (orders w y).quantity
              limit_price
              (w.clock w.clock_reads))
    pub updates :
        w'.market_update_queue
        ≡ push w.market_update_queue (
            make_update UpdateType.remove w.book.ticker_id order_id trade_id_invalid asked
              (orders w y).quantity
              limit_price
              (w.clock w.clock_reads))
    pub trades : w'.next_trade_id ≡ w.next_trade_id

  pub told_cancel-Cancelled :
      (y : ℕ) (w w1 : World)
      → Quiet w w1
      → (orders w1 y).quantity ≡ (orders w y).quantity
      → Cancelled y w (told_cancel y w1)
  told_cancel-Cancelled y w w1 q same =
      let time = ap₂ (λ (c : ℕ → ℕ) (n : ℕ). c n) q.clock_same q.reads_same in
      record {
        responses =
            ap₂ (λ u m. push u m) q.responses_same
              (ap₂
                (λ (x : ℕ × ℕ) (t : ℕ).
                  make_response ResponseType.canceled x.0 client_id order_id asked x.1 limit_price
                    t)
                (ap₂ (λ s n. (s, n)) q.ticker_same same) time);
        updates =
            ap₂ (λ u m. push u m) q.updates_same
              (ap₂
                (λ (x : ℕ × ℕ) (t : ℕ).
                  make_update UpdateType.remove x.0 order_id trade_id_invalid asked x.1 limit_price
                    t)
                (ap₂ (λ s n. (s, n)) q.ticker_same same) time);
        trades = q.trades_same;
      }

  module _ (side : OrderSide) (a y : ℕ) (l : List ℕ) (before behind met : List (ℕ × List ℕ))
      (w : World) where
    -- A book in which the level keeps orders: the level changes, all others stay.
    Book-Withdrawn :
        (w1 : World) (b : ℕ) (k : List ℕ)
        → Book side w (before ++ (a, l) ∷ behind) met
        → Withdrawn (opposite side) a y l (b ∷ k) w w1
        → Book side w1 (before ++ (a, b ∷ k) ∷ behind) met
          × (offers w1 (before ++ (a, b ∷ k) ∷ behind)
              ≡ offers w before
                ++ (price_of w (a, l), quantities (orders w) (b ∷ k)) ∷ offers w behind)
          × (offers w1 met ≡ offers w met)
    Book-Withdrawn w1 b k book d =
        let s = d.shelf in
        let rungs =
          All-parts (λ lv. Rung (opposite side) w lv.0 lv.1) before ((a, l) ∷ behind)
            book.own_ladder.rungs in
        let priced = rungs.1.0.priced in
        let still = λ (t : OrderSide). Rung-Kept t a l w w1 d.kept priced in
        let rung =
          Shelf-Rung (opposite side) w1 a (b ∷ k) (let p = s.positive.0 in omega arith) s in
        let c =
          Ladder-Changed (opposite side) w w1 before a l (b ∷ k) behind book.own_ladder
            (still (opposite side)) rung d.price d.next_level
            (opposite_best-same (opposite side) w w1 d.bids_same d.asks_same) in
        let apart = Uncrossed-Fresh (is_buy side) (levels w a).price_level (prices w met) (
          price_in_the_middle (λ p. All (λ q. crosses (is_buy side) p q ≡ false) (prices w met)) w
            before (a, l) behind book.uncrossed) in
        let m = SameRungs-of side w w1 met (
          Rungs-apart side w w1 (levels w a).price_level met (still side) apart
            book.met_ladder.rungs) in
        (
          record {
            own_ladder = c.ladder;
            met_ladder =
                Ladder-SameRungs side w w1 met book.met_ladder m
                  (opposite_best-same side w w1 d.bids_same d.asks_same);
            uncrossed =
                subst₂ (Uncrossed (is_buy side)) (sym c.prices_same) (sym m.prices_same)
                  book.uncrossed;
            unlisted = λ p f g.
                ap (λ (n : ℕ → Ptr). n p) d.map_same
                ∙ book.unlisted p (subst (Fresh p) c.prices_same f)
                    (subst (Fresh p) m.prices_same g);
            orders_valid = orders-IsValid w w1 d.kept.pools book.orders_valid;
            levels_valid = d.kept.pools.level_valid book.levels_valid;
          },
          map-append (λ (lv : ℕ × List ℕ). (price_of w1 lv, quantities (orders w1) lv.1)) before
                ((a, b ∷ k) ∷ behind)
              ∙ ap₂ (λ xs ys. xs ++ ys) c.offers_before
                  (ap₂ (λ o os. o ∷ os)
                    (ap₂ (λ p q. (p, q)) d.price
                      (quantities-payload (orders w) (orders w1) (b ∷ k) d.payload))
                    c.offers_behind),
          m.offers_same,
        )

    -- On a book whose two sides are well formed, `cancel` of an ID that an order of a level has, at
    -- the level's price, while the level has other orders: it takes that order out, leaves all other
    -- orders and levels with their quantities and in their places, and tells the client and the
    -- market once each, with the quantity that the order had. Both sides are well formed again.
    pub cancel-keeps_level :
        (b : ℕ) (k : List ℕ)
        → Book side w (before ++ (a, l) ∷ behind) met
        → (levels w a).price_level ≡ limit_price
        → find_id (orders w) order_id l ≡ some y
        → remove_id (orders w) order_id l ≡ b ∷ k
        → (w' : World) × (cancel client_id order_id asked limit_price w ≡ ok (tt, w'))
          × Book side w' (before ++ (a, b ∷ k) ∷ behind) met
          × (offers w' (before ++ (a, b ∷ k) ∷ behind)
              ≡ offers w before ++ (limit_price, quantities (orders w) (b ∷ k)) ∷ offers w behind)
          × (offers w' met ≡ offers w met)
          × Cancelled y w w'
    cancel-keeps_level b k book price found rest =
        let rungs =
          All-parts (λ lv. Rung (opposite side) w lv.0 lv.1) before ((a, l) ∷ behind)
            book.own_ladder.rungs in
        let r = rungs.1.0 in
        let (w1, done, d0) = cancel_at-Withdrawn (opposite side) w a order_id y l r found in
        let d = subst (λ ls. Withdrawn (opposite side) a y l ls w w1) rest d0 in
        let w' = told_cancel y w1 in
        let (b1, own_same, met_same) = Book-Withdrawn w1 b k book d in
        (
          w',
          cancel-stays w w1 a y b (ap w.book.price_levels (sym price) ∙ r.listed) done
              d.shelf.ring.0,
          Book-book side w1 w' (before ++ (a, b ∷ k) ∷ behind) met refl b1,
          own_same
              ∙ ap (λ p. offers w before ++ (p, quantities (orders w) (b ∷ k)) ∷ offers w behind)
                  price,
          met_same,
          told_cancel-Cancelled y w w1 d.quiet (ap Order.quantity (d.payload y)),
        )
