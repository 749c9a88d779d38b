-- ===== src/OrderBook/CancelBest.antt =====
-- cppexchange/orderbook.h: `cancel` of the last order of the best level of a side.
use mathlib.Core.Path.{subst₂}
use native.Mathlib.Decide.{ℕ_discrete}
use cpp_exchange.Prelude.{
  ℕ, ◌≡◌, refl, sym, ap, ◌∙◌, subst, some, none, List, [], ◌∷◌, Fresh, false, Bool, true, not,
}
use cpp_exchange.Outcome.{ok}
use cpp_exchange.Order.{OrderSide, is_buy, Order, Ptr}
use cpp_exchange.PriceLevel.Cancel.{find_id, remove_id}
use cpp_exchange.OrderBook.State.{OrderBook, with_best, World, levels, orders, best_of}
use cpp_exchange.OrderBook.Entry.{cancel}
use cpp_exchange.OrderBook.Pools.{Pools-trans, orders-IsValid}
use cpp_exchange.OrderBook.Quiet.{Quiet, Quiet-trans}
use cpp_exchange.OrderBook.Front.{identity, opposite_best-same}
use cpp_exchange.OrderBook.Drain.{Drained, removed_best-Drained}
use cpp_exchange.OrderBook.Remove.{removed_best, remove_price_level-removed_best}
use cpp_exchange.OrderBook.Ladder.{prices}
use cpp_exchange.OrderBook.Frame.{Rung-Kept, Drained-Kept}
use cpp_exchange.OrderBook.Rungs.{SameRungs-of, Rungs-apart, Ladder-SameRungs}
use cpp_exchange.OrderBook.Priority.{offers}
use cpp_exchange.OrderBook.Sides.{is_buy-opposite, opposite, Book, Uncrossed, Uncrossed-Fresh}
use cpp_exchange.OrderBook.Matched.{Ladder-Drained}
use cpp_exchange.OrderBook.MatchedBook.{Book-book}
use cpp_exchange.OrderBook.Withdraw.{Withdrawn, cancel_at-Withdrawn}
use cpp_exchange.OrderBook.CancelOrder.{
  told_cancel, cancel-empties, Cancelled, told_cancel-Cancelled,
}

ticker-with_best : (k : Bool) (b : OrderBook) (p : Ptr) → (with_best k b p).ticker_id ≡ b.ticker_id
ticker-with_best true b p = refl
ticker-with_best false b p = refl

removed_best-Quiet : (w : World) (a : ℕ) → Quiet w (removed_best w a)
removed_best-Quiet w a = record {
  ticker_same = ticker-with_best (is_buy (levels w a).side) w.book (levels w a).next_price_level;
  responses_same = refl;
  updates_same = refl;
  trades_same = refl;
  clock_same = refl;
  reads_same = refl;
}

-- The last order of a level has left, and the level with it.
Withdrawn-Drained :
    (side : OrderSide) (a y : ℕ) (l : List ℕ) (w w1 w2 : World)
    → Withdrawn side a y l [] w w1
    → Drained side a [] w1 w2
    → Drained side a l w w2
Withdrawn-Drained side a y l w w1 w2 d e =
    let k = d.kept in
    record {
      best = e.best ∙ d.next_level;
      own_best = e.own_best ∙ (elim (is_buy side) as (λ q. best_of q w1.book ≡ best_of q w.book) [
        | true ↦ d.bids_same
        | false ↦ d.asks_same
      ]);
      identities = λ b. e.identities b ∙ ap identity (d.payload b);
      outside = λ b f. e.outside b tt ∙ k.outside b f;
      other_levels = λ b n. e.other_levels b n ∙ k.other_levels b n;
      other_prices = λ p n. e.other_prices p (λ q. n (q ∙ d.price)) ∙ k.other_prices p n;
      erased = subst (λ (p : ℕ). w2.book.price_levels p ≡ none) d.price e.erased;
      pools = Pools-trans w w1 w2 k.pools e.pools;
      order_slots_same = e.order_slots_same ∙ k.order_slots_same;
      level_slots_same = e.level_slots_same ∙ k.level_slots_same;
      other_blocks = λ b n. e.other_blocks b n ∙ k.other_blocks b n;
      freed = e.freed;
    }

module _ (side : OrderSide) (a : ℕ) (l : List ℕ) (behind met : List (ℕ × List ℕ)) where
  -- The book without the best level of its own side.
  Book-Drained :
      (w w2 : World)
      → Book side w ((a, l) ∷ behind) met
      → Drained (opposite side) a l w w2
      → Book side w2 behind met
        × (offers w2 behind ≡ offers w behind)
        × (offers w2 met ≡ offers w met)
  Book-Drained w w2 book d =
      let (ladder, own_same, prices_same) =
        Ladder-Drained (opposite side) 0 0 a l behind w w2 book.own_ladder d in
      let kept = Drained-Kept (opposite side) a l w w2 d in
      let m = SameRungs-of side w w2 met (
        Rungs-apart side w w2 (levels w a).price_level met
          (Rung-Kept side a l w w2 kept book.own_ladder.rungs.0.priced)
          (Uncrossed-Fresh (is_buy side) (levels w a).price_level (prices w met) book.uncrossed.0)
          book.met_ladder.rungs) in
      (
        record {
          own_ladder = ladder;
          met_ladder =
              Ladder-SameRungs side w w2 met book.met_ladder m (
                subst (λ q. best_of q w2.book ≡ best_of q w.book) (is_buy-opposite side)
                  d.own_best);
          uncrossed =
              subst₂ (Uncrossed (is_buy side)) (sym prices_same) (sym m.prices_same)
                book.uncrossed.1;
          unlisted = λ p f g. elim (ℕ_discrete p (levels w a).price_level) [
            | yes here ↦ ap w2.book.price_levels here ∙ d.erased
            | no other ↦
                d.other_prices p other
                ∙ book.unlisted p (other, subst (Fresh p) prices_same f)
                    (subst (Fresh p) m.prices_same g)
          ];
          orders_valid = orders-IsValid w w2 kept.pools book.orders_valid;
          levels_valid = kept.pools.level_valid book.levels_valid;
        },
        own_same,
        m.offers_same,
      )

  -- On a book whose two sides are well formed, `cancel` of the only order of the best level of a
  -- side: the level goes with the order, the one behind it is the best, all other orders and levels
  -- keep their quantities and places, and the client and the market are told once each. Both sides
  -- are well formed again.
  pub cancel-drops_best :
      (client_id order_id : ℕ) (asked : OrderSide) (limit_price y : ℕ) (w : World)
      → Book side w ((a, l) ∷ behind) met
      → (levels w a).price_level ≡ limit_price
      → find_id (orders w) order_id l ≡ some y
      → remove_id (orders w) order_id l ≡ []
      → (w' : World) × (cancel client_id order_id asked limit_price w ≡ ok (tt, w'))
        × Book side w' behind met
        × (offers w' behind ≡ offers w behind)
        × (offers w' met ≡ offers w met)
        × Cancelled client_id order_id asked limit_price y w w'
  cancel-drops_best client_id order_id asked limit_price y w book price found rest =
      let r = book.own_ladder.rungs.0 in
      let (w1, done, d0) = cancel_at-Withdrawn (opposite side) w a order_id y l r found in
      let d = subst (λ ls. Withdrawn (opposite side) a y l ls w w1) rest d0 in
      let h = d.shelf.housed in
      let best =
        opposite_best-same (opposite side) w w1 d.bids_same d.asks_same ∙ book.own_ladder.chain.0 in
      let w2 = removed_best w1 a in
      let e = removed_best-Drained (opposite side) w1 a h in
      let (b2, own_same, met_same) =
        Book-Drained w w2 book (Withdrawn-Drained (opposite side) a y l w w1 w2 d e) in
      let w' = told_cancel client_id order_id asked limit_price y w2 in
      let quiet = Quiet-trans w w1 w2 d.quiet (removed_best-Quiet w1 a) in
      (
        w',
        cancel-empties client_id order_id asked limit_price w w1 w2 a y
            (ap w.book.price_levels (sym price) ∙ r.listed) done d.shelf.ring
            (remove_price_level-removed_best w1 a (not (is_buy (opposite side))) h.level_side best
              h.below h.taken),
        Book-book side w2 w' behind met refl b2,
        own_same,
        met_same,
        told_cancel-Cancelled client_id order_id asked limit_price y w w2 quiet
            (ap Order.quantity (e.outside y tt) ∙ ap Order.quantity (d.payload y)),
      )
