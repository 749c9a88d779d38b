-- ===== src/OrderBook/Rungs.antt =====
-- cppexchange/orderbook.h: the levels of a side that a change of one level leaves alone.
use cpp_exchange.Prelude.{
  subst, not, ℕ, ◌≡◌, ◌≢◌, refl, sym, ap, ap₂, List, [], ◌∷◌, map, Fresh, All,
}
use cpp_exchange.Order.{is_buy, Ptr, OrderSide}
use cpp_exchange.PriceLevel.{PriceLevel}
use cpp_exchange.OrderBook.State.{World, levels, orders}
use cpp_exchange.OrderBook.Frame.{StillRung, Kept, Rung-Kept}
use cpp_exchange.OrderBook.Loop.{opposite_best}
use cpp_exchange.OrderBook.LevelChain.{LevelChain, LevelChain-of_same}
use cpp_exchange.OrderBook.Ladder.{Rung, Ladder, Ranked, prices}
use cpp_exchange.OrderBook.Priority.{offers}

-- The levels `ls` are as well formed in `w'` as in `w`, with the same offers.
pub record SameRungs (side : OrderSide) (w w' : World) (ls : List (ℕ × List ℕ)) : Type 0 where
  pub rungs : All (λ lv. Rung side w' lv.0 lv.1) ls
  pub offers_same : offers w' ls ≡ offers w ls
  pub levels_same : All (λ b. levels w' b ≡ levels w b) (map (λ lv. lv.0) ls)
  pub prices_same : prices w' ls ≡ prices w ls

pub SameRungs-of :
    (side : OrderSide) (w w' : World) (ls : List (ℕ × List ℕ))
    → All (λ lv. StillRung side lv.0 lv.1 w w') ls
    → SameRungs side w w' ls
SameRungs-of side w w' [] s = record {
  rungs = tt;
  offers_same = refl;
  levels_same = tt;
  prices_same = refl;
}
SameRungs-of side w w' ((b, m) ∷ ls) s =
    let price = ap PriceLevel.price_level s.0.level_same in
    let rest = SameRungs-of side w w' ls s.1 in
    record {
      rungs = (s.0.rung, rest.rungs);
      offers_same =
          ap₂ (λ o os. o ∷ os) (ap₂ (λ p q. (p, q)) price s.0.quantities_same) rest.offers_same;
      levels_same = (s.0.level_same, rest.levels_same);
      prices_same = ap₂ (λ p ps. p ∷ ps) price rest.prices_same;
    }

-- What holds of each level at a price other than `p` holds of levels among which `p` is not.
pub Rungs-apart :
    (side : OrderSide) (w w' : World) (p : ℕ) (ls : List (ℕ × List ℕ))
    → ((b : ℕ) (m : List ℕ)
        → (levels w b).price_level ≢ p
        → Rung side w b m
        → StillRung side b m w w')
    → Fresh p (prices w ls)
    → All (λ lv. Rung side w lv.0 lv.1) ls
    → All (λ lv. StillRung side lv.0 lv.1 w w') ls
Rungs-apart side w w' p [] k f rs = tt
Rungs-apart side w w' p ((b, m) ∷ ls) k f rs =
    (k b m (λ e. f.0 (sym e)) rs.0, Rungs-apart side w w' p ls k f.1 rs.1)

-- What a change of the level at `a` leaves of the levels at other prices.
pub rungs-Kept :
    (side : OrderSide) (a : ℕ) (l : List ℕ) (w w' : World)
    → Kept a l w w'
    → All (λ o. (orders w o).limit_price ≡ (levels w a).price_level) l
    → (ls : List (ℕ × List ℕ)) → Fresh (levels w a).price_level (prices w ls)
    → All (λ lv. Rung side w lv.0 lv.1) ls
    → SameRungs side w w' ls
rungs-Kept side a l w w' kept priced ls f rs =
    SameRungs-of side w w' ls
      (Rungs-apart side w w' (levels w a).price_level ls (Rung-Kept side a l w w' kept priced) f rs)

-- A side whose levels and best level are what they were is as well formed as before.
pub Ladder-SameRungs :
    (side : OrderSide) (w w' : World) (ls : List (ℕ × List ℕ))
    → Ladder side w ls
    → SameRungs side w w' ls
    → opposite_best side w' ≡ opposite_best side w
    → Ladder side w' ls
Ladder-SameRungs side w w' ls ladder s best = record {
  chain =
      subst (λ (p : Ptr). LevelChain (levels w') p (map (λ (lv : ℕ × List ℕ). lv.0) ls)) (sym best)
        (LevelChain-of_same (levels w) (levels w') (opposite_best side w)
          (map (λ (lv : ℕ × List ℕ). lv.0) ls) s.levels_same ladder.chain);
  rungs = s.rungs;
  ranked = subst (Ranked (not (is_buy side))) (sym s.prices_same) ladder.ranked;
}
