-- ===== src/OrderBook/RestAt.antt =====
-- cppexchange/orderbook.h: what is left of an order rests at a price that has a level already.
use mathlib.Core.Path.{subst₂}
use mathlib.Core.List.{map-append}
use cpp_exchange.Prelude.{
  ℕ, ◌≤◌, ◌<◌, ◌≡◌, ◌≢◌, refl, sym, ap, ap₂, ◌∙◌, subst, some, List, [], ◌∷◌, ◌++◌, All, All-parts,
  Bool, true, Fresh,
}
use cpp_exchange.Outcome.{ok}
use cpp_exchange.ObjectPool.Laws.{free_count}
use cpp_exchange.Order.{OrderSide, is_buy, Ptr}
use cpp_exchange.OrderBook.State.{World, levels, orders}
use cpp_exchange.OrderBook.Levels.{get_price_level, get_price_level_index}
use cpp_exchange.OrderBook.Entry.{rest_order}
use cpp_exchange.OrderBook.Pools.{Fresh-of_free}
use cpp_exchange.OrderBook.Front.{quantities, opposite_best-same}
use cpp_exchange.OrderBook.Ladder.{Rung, prices, price_of}
use cpp_exchange.OrderBook.Frame.{StillRung, StillRung-book, StillRung-trans}
use cpp_exchange.OrderBook.Rungs.{SameRungs-of, Rungs-apart, Ladder-SameRungs}
use cpp_exchange.OrderBook.Change.{Ladder-Changed}
use cpp_exchange.OrderBook.Priority.{offers}
use cpp_exchange.OrderBook.Place.{Rung-Shelf}
use cpp_exchange.OrderBook.Sides.{opposite, Book, Uncrossed, Uncrossed-Fresh, price_in_the_middle}
use cpp_exchange.OrderBook.Rest.{ticked, announced, Rested, Joined-Rested, join, rest_order-steps}

get_price_level-some :
    (p a : ℕ) (side : OrderSide) (create : Bool) (w : World)
    → w.book.price_levels p ≡ some a
    → get_price_level p side create w ≡ ok (some a, w)
unfolding get_price_level get_price_level_index
get_price_level-some p a side create w e = rw e refl

-- A step on the book between two readings of the clock leaves the levels that the step leaves.
pub still_around :
    (s : OrderSide) (b : ℕ) (m : List ℕ) (w w1 w2 w3 : World)
    → w1.book ≡ w.book
    → w3.book ≡ w2.book
    → (Rung s w1 b m → StillRung s b m w1 w2)
    → Rung s w b m
    → StillRung s b m w w3
still_around s b m w w1 w2 w3 e e' k r =
    let first = StillRung-book s b m w w1 e r in
    let then_ = StillRung-trans s b m w w1 w2 first (k first.rung) in
    StillRung-trans s b m w w2 w3 then_ (StillRung-book s b m w2 w3 e' then_.rung)

module _ (order_id client_id : ℕ) (side : OrderSide) (remaining limit_price : ℕ)
    (before : List (ℕ × List ℕ)) (a : ℕ) (l : List ℕ) (behind met : List (ℕ × List ℕ)) where
  -- At a price that has a level, the rest of an order goes behind the orders of that level, and the
  -- market is told. Both sides are well formed afterwards and offer what they offered and the rest
  -- of the order at the end of its level.
  pub rest_order-at_level :
      (w : World)
      → Book side w (before ++ (a, l) ∷ behind) met
      → (levels w a).price_level ≡ limit_price
      → 0 < remaining
      → 2 ≤ free_count w.book.order_pool
      → let x = w.book.order_pool.next_free in
        (w' : World) × (rest_order order_id client_id side remaining limit_price w ≡ ok (tt, w'))
        × Book side w' (before ++ (a, l ++ x ∷ []) ∷ behind) met
        × (offers w' (before ++ (a, l ++ x ∷ []) ∷ behind)
            ≡ offers w before
              ++ (limit_price, quantities (orders w) l ++ remaining ∷ []) ∷ offers w behind)
        × (offers w' met ≡ offers w met)
        × Rested order_id client_id side remaining limit_price w x w'
  rest_order-at_level w book price more room =
      let x = w.book.order_pool.next_free in
      let rungs =
        All-parts (λ lv. Rung (opposite side) w lv.0 lv.1) before ((a, l) ∷ behind)
          book.own_ladder.rungs in
      let r = rungs.1.0 in
      let fresh = Fresh-of_free w.book.order_pool x l book.orders_valid.next_available r.in_use in
      let (w1, w2, got, added, j, qs) =
        join order_id client_id side remaining limit_price w a l book.orders_valid room more price
          (λ w1 g.
            let s =
              StillRung-trans (opposite side) a l w (ticked w) w1
                (StillRung-book (opposite side) a l w (ticked w) refl r)
                (g.still (opposite side) a l
                  (StillRung-book (opposite side) a l w (ticked w) refl r).rung) in
            (Rung-Shelf (opposite side) w1 a l s.rung, s.quantities_same, fresh)) in
      let w' = announced w.book.ticker_id order_id side remaining limit_price w2 in
      let still =
        λ (s : OrderSide) (b : ℕ) (m : List ℕ)
            (n : (levels w b).price_level ≢ (levels w a).price_level).
          still_around s b m w (ticked w) w2 w' refl refl (j.still s b m n) in
      let last = StillRung-book (opposite side) a (l ++ x ∷ []) w2 w' refl j.rung in
      let c =
        Ladder-Changed (opposite side) w w' before a l (l ++ x ∷ []) behind book.own_ladder
          (still (opposite side)) last.rung j.price j.next_level
          (opposite_best-same (opposite side) w w' j.bids_same j.asks_same) in
      let apart = Uncrossed-Fresh (is_buy side) (levels w a).price_level (prices w met) (
        price_in_the_middle (λ p. All (λ q. _) (prices w met)) w before (a, l) behind
          book.uncrossed) in
      let s = SameRungs-of side w w' met (
        Rungs-apart side w w' (levels w a).price_level met (still side) apart
          book.met_ladder.rungs) in
      (
        w',
        rest_order-steps order_id client_id side remaining limit_price w w w1 w2 a x
            (get_price_level-some limit_price a side true w
              (ap w.book.price_levels (sym price) ∙ r.listed))
            got added,
        record {
          own_ladder = c.ladder;
          met_ladder =
              Ladder-SameRungs side w w' met book.met_ladder s
                (opposite_best-same side w w' j.bids_same j.asks_same);
          uncrossed =
              subst₂ (Uncrossed (is_buy side)) (sym c.prices_same) (sym s.prices_same)
                book.uncrossed;
          unlisted = λ p f g.
              ap (λ (m : ℕ → Ptr). m p) j.map_same
              ∙ book.unlisted p (subst (Fresh p) c.prices_same f) (subst (Fresh p) s.prices_same g);
          orders_valid = j.orders_valid;
          levels_valid = j.levels_valid book.levels_valid;
        },
        map-append (λ (lv : ℕ × List ℕ). (price_of w' lv, quantities (orders w') lv.1)) before
              ((a, l ++ x ∷ []) ∷ behind)
            ∙ ap₂ (λ xs ys. xs ++ ys) c.offers_before
                (ap₂ (λ y ys. y ∷ ys) (ap₂ (λ p q. (p, q)) (j.price ∙ price) qs) c.offers_behind),
        s.offers_same,
        Joined-Rested order_id client_id side remaining limit_price w w2 a x l j,
      )
