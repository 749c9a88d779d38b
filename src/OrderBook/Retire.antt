-- ===== src/OrderBook/Retire.antt =====
-- cppexchange/orderbook.h: how `match` takes an order that is used up out of its price level.
use mathlib.Core.Path.{subst₂}
use cpp_exchange.Prelude.{
  ℕ, suc, ◌+◌, ◌≤◌, ◌≡◌, sym, ap, ◌∙◌, some, List, ◌∷◌, arith, Bool, if◌then◌else◌, update_self,
  update_ne, ◌≢◌, length, eq_self,
}
use cpp_exchange.Outcome
use cpp_exchange.Outcome.{Outcome, ok}
use cpp_exchange.Types.{trade_id_invalid}
use cpp_exchange.LfQueue.{push}
use cpp_exchange.Order.{OrderSide, Orders, Ptr}
use cpp_exchange.PriceLevel.{PriceLevel}
use cpp_exchange.PriceLevel.Ring.{Ring, detach, SameOutside}
use cpp_exchange.PriceLevel.Cancel.{find_id, remove_id, cancel-Removed}
use cpp_exchange.Messages.{UpdateType, make_update}
use cpp_exchange.OrderBook.State.{World, levels, orders, set_orders, set_level, now, publish}
use cpp_exchange.OrderBook.Levels.{get_price_level, get_price_level_index}
use cpp_exchange.OrderBook.Matching.{retire, cancel_at}

-- `w2` is the state after the level at `a`, whose ring begins with the order at `o`, has given up
-- that order.
pub record Retired (w : World) (a o : ℕ) (l : List ℕ) (w2 : World) : Type 0 where
  pub ring : Ring (orders w2) (levels w2 a).top_order l
  pub detached : orders w2 o ≡ detach (orders w o)
  pub payload : (b : ℕ) → detach (orders w2 b) ≡ detach (orders w b)
  pub outside : SameOutside (o ∷ l) (orders w) (orders w2)
  pub price : (levels w2 a).price_level ≡ (levels w a).price_level
  pub next_level : (levels w2 a).next_price_level ≡ (levels w a).next_price_level
  pub level_side : (levels w2 a).side ≡ (levels w a).side
  pub other_levels : (b : ℕ) → b ≢ a → levels w2 b ≡ levels w b

-- `cancel` of the ID of a level's first order takes that order out.
pub cancel_at-first :
    (w : World) (a o : ℕ) (l : List ℕ)
    → Ring (orders w) (levels w a).top_order (o ∷ l)
    → length l ≤ w.book.order_pool.size
    → (lv : PriceLevel) × (g : Orders) × (cancel_at a (orders w o).order_id w
        ≡ ok (some o, set_level (set_orders w g) a lv))
      × Retired w a o l (set_level (set_orders w g) a lv)
unfolding cancel_at
cancel_at-first w a o l r small =
    let h = orders w in
    let id = (h o).order_id in
    let hit = eq_self id in
    let (lv, g, done, removed) =
      cancel-Removed (suc w.book.order_pool.size) (levels w a) id h o o l r
        (ap (λ (b : Bool). if b then some o else find_id h id l) hit) (omega arith) in
    let here = update_self (levels w) a lv in
    (
      lv,
      g,
      ap
          (λ (x : Outcome (Ptr × PriceLevel × Orders)).
            Outcome.◌>>=◌ x (λ k. ok (k.0, set_level (set_orders w k.2) a k.1)))
          done,
      record {
        ring =
            subst₂ (λ (k : PriceLevel) (m : List ℕ). Ring g k.top_order m) (sym here)
              (ap (λ (b : Bool). if b then l else o ∷ remove_id h id l) hit) removed.ring;
        detached = removed.detached;
        payload = removed.payload;
        outside = removed.outside;
        price = ap PriceLevel.price_level here ∙ removed.price;
        next_level = ap PriceLevel.next_price_level here ∙ removed.next_level;
        level_side = ap PriceLevel.side here ∙ removed.side_same;
        other_levels = λ b ne. update_ne (levels w) a b lv ne;
      },
    )

-- The state after the market is told that the order at `o` is gone.
abbrev pub told_removal : World → (o fill : ℕ) → World
told_removal w o fill =
    let m = orders w o in
    record w {
      market_update_queue = push w.market_update_queue (
          make_update UpdateType.remove w.book.ticker_id m.order_id trade_id_invalid m.side fill
            m.limit_price (w.clock w.clock_reads));
      clock_reads = w.clock_reads + 1;
    }

-- `retire` of the first order of the level that the map has at its price.
pub retire-Retired :
    (w : World) (side : OrderSide) (fill a o : ℕ) (l : List ℕ)
    → w.book.price_levels (orders w o).limit_price ≡ some a
    → Ring (orders w) (levels w a).top_order (o ∷ l)
    → length l ≤ w.book.order_pool.size
    → let w1 = told_removal w o fill in
      (lv : PriceLevel) × (g : Orders) × (retire o side fill w
        ≡ ok (tt, set_level (set_orders w1 g) a lv))
      × Retired w1 a o l (set_level (set_orders w1 g) a lv)
unfolding retire now publish get_price_level get_price_level_index
retire-Retired w side fill a o l found r small =
    let w1 = told_removal w o fill in
    let (lv, g, done, retired) = cancel_at-first w1 a o l r small in
    (lv, g, rw (found, done), retired)
