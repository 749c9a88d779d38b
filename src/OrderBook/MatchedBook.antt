-- ===== src/OrderBook/MatchedBook.antt =====
-- cppexchange/orderbook.h: both sides of the book after `checkForMatch`.
use mathlib.Core.Path.{subst₂}
use cpp_exchange.Prelude.{ℕ, ◌≡◌, sym, ap, ◌∙◌, subst, List, [], ◌∷◌, All, Bool, false, not, Fresh}
use cpp_exchange.ObjectPool.Laws.{IsValid}
use cpp_exchange.Order.{OrderSide, is_buy}
use cpp_exchange.OrderBook.State.{OrderBook, World, levels, best_of}
use cpp_exchange.OrderBook.Matching.{crosses}
use cpp_exchange.OrderBook.Pools.{orders-IsValid}
use cpp_exchange.OrderBook.Ladder.{Rung, prices}
use cpp_exchange.OrderBook.Frame.{StillRung, StillRung-book}
use cpp_exchange.OrderBook.Rungs.{SameRungs-of, Ladder-SameRungs}
use cpp_exchange.OrderBook.Priority.{offers, offers_left}
use cpp_exchange.OrderBook.Matched.{Matched, ladder_left}
use cpp_exchange.OrderBook.Offers.{offered_prices, offered_prices-offers, All-offers_left}
use cpp_exchange.OrderBook.Sides.{opposite, opposite_best-own, Uncrossed, Uncrossed-Fresh, Book}

still_of_book :
    (side : OrderSide) (w w' : World) (ls : List (ℕ × List ℕ))
    → w'.book ≡ w.book
    → All (λ lv. Rung side w lv.0 lv.1) ls
    → All (λ lv. StillRung side lv.0 lv.1 w w') ls
still_of_book side w w' [] e rs = tt
still_of_book side w w' (lv ∷ ls) e rs =
    (StillRung-book side lv.0 lv.1 w w' e rs.0, still_of_book side w w' ls e rs.1)

-- The two sides rest on nothing but the book.
pub Book-book :
    (side : OrderSide) (w w' : World) (own met : List (ℕ × List ℕ))
    → w'.book ≡ w.book
    → Book side w own met
    → Book side w' own met
Book-book side w w' own met e b =
    let f =
      SameRungs-of (opposite side) w w' own
        (still_of_book (opposite side) w w' own e b.own_ladder.rungs) in
    let g = SameRungs-of side w w' met (still_of_book side w w' met e b.met_ladder.rungs) in
    record {
      own_ladder =
          Ladder-SameRungs (opposite side) w w' own b.own_ladder f
            (ap (λ (k : OrderBook). best_of (not (is_buy (opposite side))) k) e);
      met_ladder =
          Ladder-SameRungs side w w' met b.met_ladder g
            (ap (λ (k : OrderBook). best_of (not (is_buy side)) k) e);
      uncrossed =
          subst₂ (Uncrossed (is_buy side)) (sym f.prices_same) (sym g.prices_same) b.uncrossed;
      unlisted = λ p f' g'.
          ap (λ (k : OrderBook). k.price_levels p) e
          ∙ b.unlisted p (subst (Fresh p) f.prices_same f') (subst (Fresh p) g.prices_same g');
      orders_valid = subst (λ (k : OrderBook). IsValid k.order_pool) (sym e) b.orders_valid;
      levels_valid = subst (λ (k : OrderBook). IsValid k.price_level_pool) (sym e) b.levels_valid;
    }

-- What is left of the other side's prices crosses none of the own side's.
Uncrossed-offers_left :
    (buy : Bool) (limit_price n : ℕ) (os : List (ℕ × List ℕ)) (ps : List ℕ)
    → Uncrossed buy ps (offered_prices os)
    → Uncrossed buy ps (offered_prices (offers_left buy limit_price n os))
Uncrossed-offers_left buy limit_price n os [] u = tt
Uncrossed-offers_left buy limit_price n os (p ∷ ps) u = (
  All-offers_left (λ q. crosses buy p q ≡ false) buy limit_price n os u.0,
  Uncrossed-offers_left buy limit_price n os ps u.1,
)

module _ (side : OrderSide) (limit_price n : ℕ) (met : List (ℕ × List ℕ)) (w w' : World)
    (m : Matched side limit_price n met w w') where
  -- The levels of the own side are what they were.
  own_still :
      (own : List (ℕ × List ℕ))
      → Uncrossed (is_buy side) (prices w own) (prices w met)
      → All (λ lv. Rung (opposite side) w lv.0 lv.1) own
      → All (λ lv. StillRung (opposite side) lv.0 lv.1 w w') own
  own_still [] u rs = tt
  own_still (lv ∷ own) u rs = (
    m.others (opposite side) lv.0 lv.1
        (Uncrossed-Fresh (is_buy side) (levels w lv.0).price_level (prices w met) u.0) rs.0,
    own_still own u.1 rs.1,
  )

  -- The prices of the other side are those of what it has left.
  pub prices_left :
      prices w' (ladder_left (is_buy side) limit_price n (offers w met) met)
      ≡ offered_prices (offers_left (is_buy side) limit_price n (offers w met))
  prices_left =
      sym (offered_prices-offers w' (ladder_left (is_buy side) limit_price n (offers w met) met))
      ∙ ap offered_prices m.offered

  pub Book-Matched :
      (own : List (ℕ × List ℕ))
      → Book side w own met
      → Book side w' own (ladder_left (is_buy side) limit_price n (offers w met) met)
        × (offers w' own ≡ offers w own)
        × (prices w' own ≡ prices w own)
  Book-Matched own b =
      let f =
        SameRungs-of (opposite side) w w' own (own_still own b.uncrossed b.own_ladder.rungs) in
      (
        record {
          own_ladder =
              Ladder-SameRungs (opposite side) w w' own b.own_ladder f
                (opposite_best-own side w' ∙ m.own_best ∙ sym (opposite_best-own side w));
          met_ladder = m.ladder;
          uncrossed = subst₂ (Uncrossed (is_buy side)) (sym f.prices_same) (sym prices_left) (
              Uncrossed-offers_left (is_buy side) limit_price n (offers w met) (prices w own) (
                subst (Uncrossed (is_buy side) (prices w own)) (sym (offered_prices-offers w met))
                  b.uncrossed));
          unlisted =
              λ p f' g'. m.unlisted p (λ k. b.unlisted p (subst (Fresh p) f.prices_same f') k) g';
          orders_valid = orders-IsValid w w' m.pools b.orders_valid;
          levels_valid = m.pools.level_valid b.levels_valid;
        },
        f.offers_same,
        f.prices_same,
      )
