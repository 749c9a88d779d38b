-- ===== src/OrderBook/WithoutLevel.antt =====
-- cppexchange/orderbook.h: a side of the book without one of the levels behind its best.
use mathlib.Core.List.{map-append}
use cpp_exchange.Prelude.{
  ℕ, ◌≡◌, ◌≢◌, sym, ap₂, ◌∙◌, subst, List, [], ◌∷◌, ◌++◌, Fresh, All, Bool, true,
}
use cpp_exchange.Order.{OrderSide, Ptr}
use cpp_exchange.PriceLevel.{PriceLevel}
use cpp_exchange.OrderBook.State.{World, levels}
use cpp_exchange.OrderBook.Levels.{goes_behind}
use cpp_exchange.OrderBook.LevelChain.{LevelChain, LevelChain-of_same}
use cpp_exchange.OrderBook.Ladder.{Rung, Ranked, prices, price_of}
use cpp_exchange.OrderBook.Frame.{StillRung}
use cpp_exchange.OrderBook.Change.{addresses}

-- What holds of each level at a price other than `p` and `q` holds of levels at other prices.
pub Rungs-apart_both :
    (side : OrderSide) (w w' : World) (p q : ℕ) (ls : List (ℕ × List ℕ))
    → ((c : ℕ) (m : List ℕ)
        → (levels w c).price_level ≢ p
        → (levels w c).price_level ≢ q
        → Rung side w c m
        → StillRung side c m w w')
    → Fresh p (prices w ls)
    → Fresh q (prices w ls)
    → All (λ lv. Rung side w lv.0 lv.1) ls
    → All (λ lv. StillRung side lv.0 lv.1 w w') ls
Rungs-apart_both side w w' p q [] k f g rs = tt
Rungs-apart_both side w w' p q (lv ∷ ls) k f g rs = (
  k lv.0 lv.1 (λ e. f.0 (sym e)) (λ e. g.0 (sym e)) rs.0,
  Rungs-apart_both side w w' p q ls k f.1 g.1 rs.1,
)

pub Fresh-levels :
    (w : World) (p : ℕ) (ls : List (ℕ × List ℕ))
    → Fresh p (prices w ls)
    → All (λ c. (levels w c).price_level ≢ p) (addresses ls)
Fresh-levels w p [] f = tt
Fresh-levels w p (lv ∷ ls) f = ((λ e. f.0 (sym e)), Fresh-levels w p ls f.1)

module _ (w : World) (b : ℕ × List ℕ) (a : ℕ × List ℕ) (behind : List (ℕ × List ℕ)) where
  pub All-without {κ} :
      (P : ℕ → Type κ) (front : List (ℕ × List ℕ))
      → All P (prices w (front ++ b ∷ a ∷ behind))
      → All P (prices w (front ++ b ∷ behind))
  All-without P [] h = (h.0, h.1.1)
  All-without P (c ∷ front) h = (h.0, All-without P front h.1)

  pub Ranked-without :
      (buy : Bool) (front : List (ℕ × List ℕ))
      → Ranked buy (prices w (front ++ b ∷ a ∷ behind))
      → Ranked buy (prices w (front ++ b ∷ behind))
  Ranked-without buy [] r = (r.0.1, r.1.1)
  Ranked-without buy (c ∷ front) r = (
    All-without (λ q. goes_behind buy q (price_of w c) ≡ true) front r.0,
    Ranked-without buy front r.1,
  )

  pub Fresh-with :
      (p : ℕ) (front : List (ℕ × List ℕ))
      → p ≢ price_of w a
      → Fresh p (prices w (front ++ b ∷ behind))
      → Fresh p (prices w (front ++ b ∷ a ∷ behind))
  Fresh-with p [] n f = (f.0, (n, f.1))
  Fresh-with p (c ∷ front) n f = (f.0, Fresh-with p front n f.1)

  -- The chain, when the level before the one that goes is linked past it.
  pub LevelChain-without :
      (w' : World) (front : List (ℕ × List ℕ)) (p : Ptr)
      → All (λ c. levels w' c ≡ levels w c) (addresses front)
      → (levels w' b.0).next_price_level ≡ (levels w a.0).next_price_level
      → All (λ c. levels w' c ≡ levels w c) (addresses behind)
      → LevelChain (levels w) p (addresses (front ++ b ∷ a ∷ behind))
      → LevelChain (levels w') p (addresses (front ++ b ∷ behind))
  LevelChain-without w' [] p f n g c = (
    c.0,
    subst (λ (q : Ptr). LevelChain (levels w') q (addresses behind)) (sym n)
        (LevelChain-of_same (levels w) (levels w') (levels w a.0).next_price_level
          (addresses behind) g c.1.1),
  )
  LevelChain-without w' (d ∷ front) p f n g c = (
    c.0,
    subst
        (λ (k : PriceLevel).
          LevelChain (levels w') k.next_price_level (addresses (front ++ b ∷ behind)))
        (sym f.0) (LevelChain-without w' front (levels w d.0).next_price_level f.1 n g c.1),
  )

  pub prices-without :
      (w' : World) (front : List (ℕ × List ℕ))
      → prices w' front ≡ prices w front
      → price_of w' b ≡ price_of w b
      → prices w' behind ≡ prices w behind
      → prices w' (front ++ b ∷ behind) ≡ prices w (front ++ b ∷ behind)
  prices-without w' front f n g =
      map-append (price_of w') front (b ∷ behind)
      ∙ ap₂ (λ x y. x ++ y) f (ap₂ (λ x y. x ∷ y) n g)
      ∙ sym (map-append (price_of w) front (b ∷ behind))
