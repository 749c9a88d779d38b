-- ===== src/OrderBook/RestBest.antt =====
-- cppexchange/orderbook.h: what is left of an order rests at a price that is the best of its side.
use cpp_exchange.Prelude.{
  ℕ, ◌≤◌, ◌<◌, ◌≡◌, ◌≢◌, refl, sym, ap, ap₂, ◌∙◌, subst, List, [], ◌∷◌, All, arith, Bool, true,
  false, not, Fresh,
}
use mathlib.Core.Path.{subst₂}
use cpp_exchange.Outcome.{ok}
use cpp_exchange.ObjectPool.{ObjectPool}
use cpp_exchange.ObjectPool.Laws.{IsValid, free_count}
use cpp_exchange.Order.{Order, OrderSide, is_buy, Ptr}
use cpp_exchange.PriceLevel.{PriceLevel, make_price_level}
use cpp_exchange.OrderBook.State.{World, levels, orders, best_of}
use cpp_exchange.OrderBook.Levels.{goes_behind}
use cpp_exchange.OrderBook.Matching.{crosses}
use cpp_exchange.OrderBook.Entry.{rest_order}
use cpp_exchange.OrderBook.LevelChain.{LevelChain, LevelChain-of_same}
use cpp_exchange.OrderBook.Loop.{opposite_best}
use cpp_exchange.OrderBook.Front.{quantities, opposite_best-same}
use cpp_exchange.OrderBook.Ladder.{Rung, Ranked, Ranked-Fresh, prices}
use cpp_exchange.OrderBook.Frame.{StillRung-book, StillRung-trans}
use cpp_exchange.OrderBook.Rungs.{SameRungs-of, Rungs-apart, Ladder-SameRungs}
use cpp_exchange.OrderBook.Change.{addresses}
use cpp_exchange.OrderBook.Priority.{offers}
use cpp_exchange.OrderBook.Allocate.{Allocated}
use cpp_exchange.OrderBook.Place.{Shelf}
use cpp_exchange.OrderBook.Join.{Joined}
use cpp_exchange.OrderBook.Sides.{
  opposite, is_buy-opposite, not-not, opposite_best-own, Book, Uncrossed-Fresh,
}
use cpp_exchange.OrderBook.Crown.{Crowned, get_price_level-Crowned}
use cpp_exchange.OrderBook.Rest.{ticked, announced, rested, join, rest_order-steps}
use cpp_exchange.OrderBook.RestAt.{still_around}

pub own_side : (side : OrderSide) → is_buy side ≡ not (is_buy (opposite side))
own_side side = sym (not-not (is_buy side)) ∙ ap not (sym (is_buy-opposite side))

-- A level that was just made holds no orders yet.
Shelf-Crowned :
    (side : OrderSide) (price a : ℕ) (next : Ptr) (o : Order) (x : ℕ) (w w0 w1 : World)
    → Crowned (is_buy side) price a (make_price_level side price next) w w0
    → Allocated o x (ticked w0) w1
    → Shelf (opposite side) w1 a []
Shelf-Crowned side price a next o x w w0 w1 k g =
    let level : levels w1 a ≡ make_price_level side price next =
      ap (λ (q : ObjectPool PriceLevel). (q.store a).object) g.level_pool_same ∙ k.level in
    record {
      ring = ap PriceLevel.top_order level;
      priced = tt;
      listed =
          ap (λ (l : PriceLevel). w1.book.price_levels l.price_level) level
          ∙ ap (λ (f : ℕ → Ptr). f price) g.map_same
          ∙ k.listed;
      positive = tt;
      in_use = tt;
      in_pool = tt;
      housed = record {
        level_side = ap (λ (l : PriceLevel). is_buy l.side) level ∙ own_side side;
        below = (let e = ap ObjectPool.size g.level_pool_same in let b = k.below in omega arith);
        taken =
            ap (λ (q : ObjectPool PriceLevel). (q.store a).available) g.level_pool_same ∙ k.taken;
      };
    }

module _ (order_id client_id : ℕ) (side : OrderSide) (remaining limit_price : ℕ)
    (own met : List (ℕ × List ℕ)) where
  -- The two sides after the order at `x` has joined the new level at `a`.
  Book-Crowned :
      (a x : ℕ) (o : Order) (w w0 w2 w' : World)
      → Book side w own met
      → All (λ q. goes_behind (is_buy side) q limit_price ≡ true) (prices w own)
      → All (λ q. crosses (is_buy side) limit_price q ≡ false) (prices w met)
      → Crowned
          (is_buy side)
          limit_price
          a
          (make_price_level side limit_price (best_of (is_buy side) w.book))
          w
          w0
      → Joined (opposite side) o a x [] (ticked w0) w2
      → w'.book ≡ w2.book
      → Book side w' ((a, x ∷ []) ∷ own) met
        × (offers w' own ≡ offers w own)
        × (offers w' met ≡ offers w met)
        × ((levels w' a).price_level ≡ limit_price)
        × (quantities (orders w') (x ∷ []) ≡ quantities (orders w2) (x ∷ []))
  Book-Crowned a x o w w0 w2 w' book better apart k j e =
      let at_price : (levels w0 a).price_level ≡ limit_price = ap PriceLevel.price_level k.level in
      let still =
        λ (s : OrderSide) (b : ℕ) (m : List ℕ) (n : (levels w b).price_level ≢ limit_price)
            (r : Rung s w b m).
          (let first = k.still s b m n r in
            StillRung-trans s b m w w0 w' first (
              still_around s b m w0 (ticked w0) w2 w' refl e
                (j.still s b m
                  (λ eq. n (sym (ap PriceLevel.price_level first.level_same) ∙ eq ∙ at_price)))
                first.rung)) in
      let f = SameRungs-of (opposite side) w w' own (
        Rungs-apart (opposite side) w w' limit_price own (still (opposite side))
          (Ranked-Fresh (is_buy side) limit_price (prices w own) better) book.own_ladder.rungs) in
      let g = SameRungs-of side w w' met (
        Rungs-apart side w w' limit_price met (still side)
          (Uncrossed-Fresh (is_buy side) limit_price (prices w met) apart) book.met_ladder.rungs) in
      let last = StillRung-book (opposite side) a (x ∷ []) w2 w' e j.rung in
      let price = ap PriceLevel.price_level last.level_same ∙ j.price ∙ at_price in
      let next : opposite_best (opposite side) w ≡ (levels w' a).next_price_level =
        opposite_best-own side w
        ∙ sym (
            ap PriceLevel.next_price_level last.level_same
            ∙ j.next_level
            ∙ ap PriceLevel.next_price_level k.level) in
      let bids = ap (λ b. best_of true b) e ∙ j.bids_same in
      let asks = ap (λ b. best_of false b) e ∙ j.asks_same in
      (
        record {
          own_ladder = record {
            chain = (
              opposite_best-same (opposite side) w0 w' bids asks
                  ∙ opposite_best-own side w0
                  ∙ k.best,
              subst (λ (p : Ptr). LevelChain (levels w') p (addresses own)) next
                  (LevelChain-of_same (levels w) (levels w') (opposite_best (opposite side) w)
                    (addresses own) f.levels_same book.own_ladder.chain),
            );
            rungs = (last.rung, f.rungs);
            ranked = (
              subst₂
                  (λ (p : ℕ) (ps : List ℕ).
                    All (λ q. goes_behind (not (is_buy (opposite side))) q p ≡ true) ps)
                  (sym price) (sym f.prices_same)
                  (subst
                    (λ (b : Bool). All (λ q. goes_behind b q limit_price ≡ true) (prices w own))
                    (own_side side) better),
              subst (Ranked (not (is_buy (opposite side)))) (sym f.prices_same)
                  book.own_ladder.ranked,
            );
          };
          met_ladder =
              Ladder-SameRungs side w w' met book.met_ladder g
                (opposite_best-same side w0 w' bids asks ∙ k.other_best);
          uncrossed = (
            subst₂ (λ (p : ℕ) (ps : List ℕ). All (λ q. crosses (is_buy side) p q ≡ false) ps)
                (sym price) (sym g.prices_same) apart,
            subst₂
                (λ (ps qs : List ℕ). All (λ p. All (λ q. crosses (is_buy side) p q ≡ false) qs) ps)
                (sym f.prices_same) (sym g.prices_same) book.uncrossed,
          );
          unlisted = λ p f' g'.
              let ne : p ≢ limit_price = λ q. f'.0 (q ∙ sym price) in
              ap (λ b. b.price_levels p) e
              ∙ ap (λ (m : ℕ → Ptr). m p) j.map_same
              ∙ k.other_prices p ne
              ∙ book.unlisted p (subst (Fresh p) f.prices_same f'.1)
                  (subst (Fresh p) g.prices_same g');
          orders_valid = subst (λ b. IsValid b.order_pool) (sym e) j.orders_valid;
          levels_valid =
              subst (λ b. IsValid b.price_level_pool) (sym e) (j.levels_valid k.levels_valid);
        },
        f.offers_same,
        g.offers_same,
        price,
        last.quantities_same,
      )

  -- At a price that is better than all prices of its side, and that no order of the other side
  -- accepts, the rest of an order gets a level of its own, the best of its side.
  pub rest_order-at_best :
      (w : World)
      → Book side w own met
      → All (λ q. goes_behind (is_buy side) q limit_price ≡ true) (prices w own)
      → All (λ q. crosses (is_buy side) limit_price q ≡ false) (prices w met)
      → 0 < remaining
      → 2 ≤ free_count w.book.order_pool
      → 2 ≤ free_count w.book.price_level_pool
      → let a = w.book.price_level_pool.next_free in
        let x = w.book.order_pool.next_free in
        (w' : World) × (rest_order order_id client_id side remaining limit_price w ≡ ok (tt, w'))
        × Book side w' ((a, x ∷ []) ∷ own) met
        × (offers w' ((a, x ∷ []) ∷ own) ≡ (limit_price, remaining ∷ []) ∷ offers w own)
        × (offers w' met ≡ offers w met)
  rest_order-at_best w book better apart more room level_room =
      let a = w.book.price_level_pool.next_free in
      let missing =
        book.unlisted limit_price (Ranked-Fresh (is_buy side) limit_price (prices w own) better)
          (Uncrossed-Fresh (is_buy side) limit_price (prices w met) apart) in
      let (w0, level, k) =
        get_price_level-Crowned limit_price side w own book.own_ladder book.levels_valid level_room
          missing better in
      let x = w0.book.order_pool.next_free in
      let (w1, w2, got, added, j, qs) =
        join order_id client_id side remaining limit_price w0 a []
          (subst IsValid (sym k.order_pool_same) book.orders_valid)
          (omega (arith, ap free_count k.order_pool_same)) more (ap PriceLevel.price_level k.level)
          (λ w1 g. (
            Shelf-Crowned side limit_price a (best_of (is_buy side) w.book)
                (rested order_id client_id side remaining limit_price w0) x w w0 w1 k g,
            refl,
            tt,
          )) in
      let w' = announced w0.book.ticker_id order_id side remaining limit_price w2 in
      let (b, own_same, met_same, price, last) =
        Book-Crowned a x (rested order_id client_id side remaining limit_price w0) w w0 w2 w' book
          better apart k j refl in
      subst
        (λ (y : ℕ).
          (w'' : World) × (rest_order order_id client_id side remaining limit_price w
            ≡ ok (tt, w''))
          × Book side w'' ((a, y ∷ []) ∷ own) met
          × (offers w'' ((a, y ∷ []) ∷ own) ≡ (limit_price, remaining ∷ []) ∷ offers w own)
          × (offers w'' met ≡ offers w met))
        (ap ObjectPool.next_free k.order_pool_same)
        (
          w',
          rest_order-steps order_id client_id side remaining limit_price w w0 w1 w2 a x level got
              added,
          b,
          ap₂ (λ o os. o ∷ os) (ap₂ (λ p q. (p, q)) price (last ∙ qs)) own_same,
          met_same,
        )
