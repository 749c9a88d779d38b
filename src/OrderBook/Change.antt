-- ===== src/OrderBook/Change.antt =====
-- cppexchange/orderbook.h: a side of the book in which one level changes.
use mathlib.Core.List.{map-append}
use cpp_exchange.Prelude.{
  ℕ, ◌≡◌, ◌≢◌, sym, ap₂, ◌∙◌, subst, List, [], ◌∷◌, ◌++◌, map, Fresh, All, All-append, All-parts,
  arith, Bool, true, false, not,
}
use cpp_exchange.Order.{OrderSide, is_buy, Ptr}
use cpp_exchange.PriceLevel.{PriceLevel}
use cpp_exchange.OrderBook.State.{World, levels}
use cpp_exchange.OrderBook.Levels.{goes_behind}
use cpp_exchange.OrderBook.LevelChain.{LevelChain, LevelChain-of_same}
use cpp_exchange.OrderBook.Loop.{opposite_best}
use cpp_exchange.OrderBook.Ladder.{Rung, Ladder, Ranked, Ranked-Fresh, prices, price_of}
use cpp_exchange.OrderBook.Frame.{StillRung}
use cpp_exchange.OrderBook.Rungs.{SameRungs-of, Rungs-apart}
use cpp_exchange.OrderBook.Priority.{offers}

abbrev pub addresses : List (ℕ × List ℕ) → List ℕ
addresses ls = map (λ lv. lv.0) ls

goes_behind-ne : (buy : Bool) (p q : ℕ) → goes_behind buy q p ≡ true → q ≢ p
unfolding goes_behind
goes_behind-ne true p q h = ground arith
goes_behind-ne false p q h = ground arith

-- A price is none of those before it and none of those behind it.
pub Ranked-apart :
    (buy : Bool) (w : World) (before : List (ℕ × List ℕ)) (lv : ℕ × List ℕ)
    (behind : List (ℕ × List ℕ))
    → Ranked buy (prices w (before ++ lv ∷ behind))
    → Fresh (price_of w lv) (prices w before) × Fresh (price_of w lv) (prices w behind)
Ranked-apart buy w [] lv behind r = (tt, Ranked-Fresh buy (price_of w lv) (prices w behind) r.0)
Ranked-apart buy w (b ∷ before) lv behind r =
    let (front, back) = Ranked-apart buy w before lv behind r.1 in
    ((goes_behind-ne buy (price_of w b) (price_of w lv) (at before r.0), front), back)
  where
    at :
        (ls : List (ℕ × List ℕ))
        → All (λ q. goes_behind buy q (price_of w b) ≡ true) (prices w (ls ++ lv ∷ behind))
        → goes_behind buy (price_of w lv) (price_of w b) ≡ true
    at [] h = h.0
    at (c ∷ ls) h = at ls h.1

module _ (w w' : World) (a : ℕ) (l l' : List ℕ) (behind : List (ℕ × List ℕ)) where
  pub change-LevelChain :
      (before : List (ℕ × List ℕ)) (p : Ptr)
      → All (λ b. levels w' b ≡ levels w b) (addresses before)
      → (levels w' a).next_price_level ≡ (levels w a).next_price_level
      → All (λ b. levels w' b ≡ levels w b) (addresses behind)
      → LevelChain (levels w) p (addresses (before ++ (a, l) ∷ behind))
      → LevelChain (levels w') p (addresses (before ++ (a, l') ∷ behind))
  change-LevelChain [] p f n g c = (
    c.0,
    subst (λ (q : Ptr). LevelChain (levels w') q (addresses behind)) (sym n)
        (LevelChain-of_same (levels w) (levels w') (levels w a).next_price_level (addresses behind)
          g c.1),
  )
  change-LevelChain ((b, m) ∷ before) p f n g c = (
    c.0,
    subst
        (λ (k : PriceLevel).
          LevelChain (levels w') k.next_price_level (addresses (before ++ (a, l') ∷ behind)))
        (sym f.0) (change-LevelChain before (levels w b).next_price_level f.1 n g c.1),
  )

  change-prices :
      (before : List (ℕ × List ℕ))
      → prices w' before ≡ prices w before
      → (levels w' a).price_level ≡ (levels w a).price_level
      → prices w' behind ≡ prices w behind
      → prices w' (before ++ (a, l') ∷ behind) ≡ prices w (before ++ (a, l) ∷ behind)
  change-prices before f n g =
      map-append (price_of w') before ((a, l') ∷ behind)
      ∙ ap₂ (λ x y. x ++ y) f (ap₂ (λ x y. x ∷ y) n g)
      ∙ sym (map-append (price_of w) before ((a, l) ∷ behind))

-- One level of a side has other orders, at its old price and place, and every level at another
-- price is what it was: the side is well formed.
pub record Changed (side : OrderSide) (w : World) (before : List (ℕ × List ℕ)) (a : ℕ)
    (l l' : List ℕ) (behind : List (ℕ × List ℕ)) (w' : World) : Type 0 where
  pub ladder : Ladder side w' (before ++ (a, l') ∷ behind)
  pub offers_before : offers w' before ≡ offers w before
  pub offers_behind : offers w' behind ≡ offers w behind
  pub prices_same : prices w' (before ++ (a, l') ∷ behind) ≡ prices w (before ++ (a, l) ∷ behind)

pub Ladder-Changed :
    (side : OrderSide) (w w' : World) (before : List (ℕ × List ℕ)) (a : ℕ) (l l' : List ℕ)
    (behind : List (ℕ × List ℕ))
    → Ladder side w (before ++ (a, l) ∷ behind)
    → ((b : ℕ) (m : List ℕ)
        → (levels w b).price_level ≢ (levels w a).price_level
        → Rung side w b m
        → StillRung side b m w w')
    → Rung side w' a l'
    → (levels w' a).price_level ≡ (levels w a).price_level
    → (levels w' a).next_price_level ≡ (levels w a).next_price_level
    → opposite_best side w' ≡ opposite_best side w
    → Changed side w before a l l' behind w'
Ladder-Changed side w w' before a l l' behind ladder still rung price next best =
    let (front, back) = Ranked-apart (not (is_buy side)) w before (a, l) behind ladder.ranked in
    let (rs, rest) =
      All-parts (λ lv. Rung side w lv.0 lv.1) before ((a, l) ∷ behind) ladder.rungs in
    let p = (levels w a).price_level in
    let f = SameRungs-of side w w' before (Rungs-apart side w w' p before still front rs) in
    let g = SameRungs-of side w w' behind (Rungs-apart side w w' p behind still back rest.1) in
    let ps = change-prices w w' a l l' behind before f.prices_same price g.prices_same in
    record {
      ladder = record {
        chain =
            subst (λ (q : Ptr). LevelChain (levels w') q (addresses (before ++ (a, l') ∷ behind)))
              (sym best)
              (change-LevelChain w w' a l l' behind before (opposite_best side w) f.levels_same next
                g.levels_same ladder.chain);
        rungs =
            All-append (λ lv. Rung side w' lv.0 lv.1) before ((a, l') ∷ behind) f.rungs
              (rung, g.rungs);
        ranked = subst (Ranked (not (is_buy side))) (sym ps) ladder.ranked;
      };
      offers_before = f.offers_same;
      offers_behind = g.offers_same;
      prices_same = ps;
    }
