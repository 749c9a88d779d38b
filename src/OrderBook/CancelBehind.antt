-- ===== src/OrderBook/CancelBehind.antt =====
-- cppexchange/orderbook.h: `cancel` of the last order of a level behind the best of its side.
use mathlib.Core.Path.{subst₂}
use mathlib.Core.List.{map-append}
use cpp_exchange.Prelude.{
  ℕ, suc, ◌<◌, ◌≡◌, ◌≢◌, refl, sym, ap, ap₂, ◌∙◌, subst, List, [], ◌∷◌, ◌++◌, All, All-append,
  All-parts, Fresh, arith, not, length, length-append, update_self, update_ne, append_assoc, Bool,
}
use cpp_exchange.Outcome.{ok}
use cpp_exchange.Order.{OrderSide, is_buy, Ptr}
use cpp_exchange.PriceLevel.{PriceLevel}
use cpp_exchange.OrderBook.State.{World, levels, orders, best_of}
use cpp_exchange.OrderBook.Levels.{remove_price_level}
use cpp_exchange.OrderBook.Loop.{opposite_best}
use cpp_exchange.OrderBook.LevelChain.{LevelChain}
use cpp_exchange.OrderBook.Pools.{length-InUse}
use cpp_exchange.OrderBook.Front.{quantities, opposite_best-same}
use cpp_exchange.OrderBook.Ladder.{Rung, Ladder, Ranked, prices, price_of}
use cpp_exchange.OrderBook.Frame.{StillRung, StillRung-trans, Rung-Kept}
use cpp_exchange.OrderBook.Rungs.{SameRungs-of, Rungs-apart}
use cpp_exchange.OrderBook.Change.{addresses, Ranked-apart, change-LevelChain}
use cpp_exchange.OrderBook.Crown.{Distinct-addresses, addresses-InUse}
use cpp_exchange.OrderBook.Priority.{offers}
use cpp_exchange.OrderBook.Withdraw.{Withdrawn}
use cpp_exchange.OrderBook.RemoveBehind.{
  chain_begins, find_previous_level-before, relinked, freed, remove_price_level-behind,
  relinked-Kept, freed-Kept, Rung-relinked,
}
use cpp_exchange.OrderBook.WithoutLevel.{
  Rungs-apart_both, Fresh-levels, Ranked-without, LevelChain-without, prices-without,
}

module _ (side : OrderSide) (a y : ℕ) (l : List ℕ) (front : List (ℕ × List ℕ)) (b : ℕ) (k : List ℕ)
    (behind : List (ℕ × List ℕ)) (w w1 : World) (d : Withdrawn side a y l [] w w1)
    (ladder : Ladder side w (front ++ (b, k) ∷ (a, l) ∷ behind)) where
  -- The state after the level at `a` is removed.
  abbrev pub gone : World
  gone = freed a (relinked a b w1)

  -- The prices of the levels, apart from each other.
  abbrev pub IsApart : Type 0
  IsApart =
      Fresh (price_of w (b, k)) (prices w front)
      × Fresh (price_of w (b, k)) (prices w behind)
      × Fresh (price_of w (a, l)) (prices w front)
      × Fresh (price_of w (a, l)) (prices w behind)
      × (price_of w (b, k) ≢ price_of w (a, l))

  pub prices-IsApart : IsApart
  prices-IsApart =
      let (b_front, b_back) =
        Ranked-apart (not (is_buy side)) w front (b, k) ((a, l) ∷ behind) ladder.ranked in
      let (a_front, a_back) =
        Ranked-apart (not (is_buy side)) w (front ++ (b, k) ∷ []) (a, l) behind
          (subst (λ ls. Ranked (not (is_buy side)) (prices w ls))
            (sym (append_assoc front ((b, k) ∷ []) ((a, l) ∷ behind))) ladder.ranked) in
      (b_front, b_back.1, (Fresh-of front a_front), a_back, b_back.0)
    where
      Fresh-of :
          (ls : List (ℕ × List ℕ))
          → Fresh (price_of w (a, l)) (prices w (ls ++ (b, k) ∷ []))
          → Fresh (price_of w (a, l)) (prices w ls)
      Fresh-of [] f = tt
      Fresh-of (c ∷ ls) f = (f.0, Fresh-of ls f.1)

  a_ne_b : a ≢ b
  a_ne_b e = prices-IsApart.4 (ap (λ (c : ℕ). (levels w c).price_level) (sym e))

  level_b : levels w1 b ≡ levels w b
  level_b = d.kept.other_levels b (λ e. a_ne_b (sym e))

  -- The level at `a` before its removal.
  pub level_a : (levels (relinked a b w1) a).price_level ≡ (levels w a).price_level
  level_a = ap PriceLevel.price_level (update_ne (levels w1) b a _ a_ne_b) ∙ d.price

  priced : All (λ o. (orders w o).limit_price ≡ (levels w a).price_level) l
  priced =
      (All-parts (λ lv. Rung side w lv.0 lv.1) front ((b, k) ∷ (a, l) ∷ behind)
        ladder.rungs).1.1.0.priced

  -- What the removal leaves of a level at another price, from the relinked state on.
  still_freed :
      (t : OrderSide) (c : ℕ) (m : List ℕ)
      → (levels (relinked a b w1) c).price_level ≢ (levels w a).price_level
      → Rung t (relinked a b w1) c m
      → StillRung t c m (relinked a b w1) gone
  still_freed t c m n =
      Rung-Kept t a [] (relinked a b w1) gone (freed-Kept a (relinked a b w1) d.shelf.housed.below)
        tt c m (λ e. n (e ∙ level_a))

  pub still_gone :
      (t : OrderSide) (c : ℕ) (m : List ℕ)
      → (levels w c).price_level ≢ (levels w b).price_level
      → (levels w c).price_level ≢ (levels w a).price_level
      → Rung t w c m
      → StillRung t c m w gone
  still_gone t c m nb na r =
      let one = Rung-Kept t a l w w1 d.kept priced c m na r in
      let two =
        Rung-Kept t b [] w1 (relinked a b w1) (relinked-Kept a b w1) tt c m
          (λ e. nb (
            sym (ap PriceLevel.price_level one.level_same) ∙ e ∙ ap PriceLevel.price_level level_b))
          one.rung in
      let both = StillRung-trans t c m w w1 (relinked a b w1) one two in
      StillRung-trans t c m w (relinked a b w1) gone both
        (still_freed t c m (λ e. na (sym (ap PriceLevel.price_level both.level_same) ∙ e)) two.rung)

  -- The level before it, linked anew.
  record Linked : Type 0 where
    rung : Rung side gone b k
    quantities_same : quantities (orders gone) k ≡ quantities (orders w) k
    price : (levels gone b).price_level ≡ (levels w b).price_level
    next : (levels gone b).next_price_level ≡ (levels w a).next_price_level

  level-Linked : Linked
  level-Linked =
      let r =
        (All-parts (λ lv. Rung side w lv.0 lv.1) front ((b, k) ∷ (a, l) ∷ behind)
          ladder.rungs).1.0 in
      let one = Rung-Kept side a l w w1 d.kept priced b k prices-IsApart.4 r in
      let here =
        update_self (levels w1) b
          (record (levels w1 b) { next_price_level = (levels w1 a).next_price_level }) in
      let price = ap PriceLevel.price_level here ∙ ap PriceLevel.price_level level_b in
      let two =
        still_freed side b k (λ e. prices-IsApart.4 (sym price ∙ e))
          (Rung-relinked side a b k w1 one.rung) in
      record {
        rung = two.rung;
        quantities_same = two.quantities_same ∙ one.quantities_same;
        price = ap PriceLevel.price_level two.level_same ∙ price;
        next =
            ap PriceLevel.next_price_level two.level_same
            ∙ ap PriceLevel.next_price_level here
            ∙ d.next_level;
      }

  -- The side without the level.
  pub record Without : Type 0 where
    pub ladder_without : Ladder side gone (front ++ (b, k) ∷ behind)
    pub offers_without :
        offers gone (front ++ (b, k) ∷ behind) ≡ offers w (front ++ (b, k) ∷ behind)
    pub prices_same : prices gone (front ++ (b, k) ∷ behind) ≡ prices w (front ++ (b, k) ∷ behind)

  pub Ladder-Without : Without
  Ladder-Without =
      let (bf, bb, af, ab, _) = prices-IsApart in
      let (rs, rest) =
        All-parts (λ lv. Rung side w lv.0 lv.1) front ((b, k) ∷ (a, l) ∷ behind) ladder.rungs in
      let pb = (levels w b).price_level in
      let pa = (levels w a).price_level in
      let f =
        SameRungs-of side w gone front
          (Rungs-apart_both side w gone pb pa front (still_gone side) bf af rs) in
      let g =
        SameRungs-of side w gone behind
          (Rungs-apart_both side w gone pb pa behind (still_gone side) bb ab rest.1.1) in
      let m = level-Linked in
      let ps =
        prices-without w (b, k) (a, l) behind gone front f.prices_same m.price g.prices_same in
      record {
        ladder_without = record {
          chain =
              subst (λ (q : Ptr). LevelChain (levels gone) q (addresses (front ++ (b, k) ∷ behind)))
                (sym (opposite_best-same side w gone d.bids_same d.asks_same))
                (LevelChain-without w (b, k) (a, l) behind gone front (opposite_best side w)
                  f.levels_same m.next g.levels_same ladder.chain);
          rungs =
              All-append (λ lv. Rung side gone lv.0 lv.1) front ((b, k) ∷ behind) f.rungs
                (m.rung, g.rungs);
          ranked =
              subst (Ranked (not (is_buy side))) (sym ps)
                (Ranked-without w (b, k) (a, l) behind (not (is_buy side)) front ladder.ranked);
        };
        offers_without =
            map-append (λ (lv : ℕ × List ℕ). (price_of gone lv, quantities (orders gone) lv.1))
              front ((b, k) ∷ behind)
            ∙ ap₂ (λ xs ys. xs ++ ys) f.offers_same
                (ap₂ (λ o os. o ∷ os) (ap₂ (λ p q. (p, q)) m.price m.quantities_same) g.offers_same)
            ∙ sym (
                map-append (λ (lv : ℕ × List ℕ). (price_of w lv, quantities (orders w) lv.1)) front
                  ((b, k) ∷ behind));
        prices_same = ps;
      }

  few_levels : length (addresses front) < suc w1.book.price_level_pool.size
  few_levels =
      let own = front ++ (b, k) ∷ (a, l) ∷ behind in
      let pool = w.book.price_level_pool in
      let (used, below) = addresses-InUse side w own ladder.rungs in
      omega (
        arith,
        length-InUse pool.store pool.size (addresses own)
            (Distinct-addresses (not (is_buy side)) w own ladder.ranked) below used,
        ap length (map-append (λ (lv : ℕ × List ℕ). lv.0) front ((b, k) ∷ (a, l) ∷ behind)),
        length-append (addresses front) (b ∷ a ∷ addresses behind),
        d.kept.level_slots_same,
      )

  -- The chain of the side while the level that lost its last order is still in it.
  chain_with_empty :
      LevelChain (levels w1) (opposite_best side w1) (addresses front ++ b ∷ a ∷ addresses behind)
  chain_with_empty =
      let before = front ++ (b, k) ∷ [] in
      let (_, _, af, ab, ne) = prices-IsApart in
      let (rs, rest) =
        All-parts (λ lv. Rung side w lv.0 lv.1) front ((b, k) ∷ (a, l) ∷ behind) ladder.rungs in
      let keep = Rung-Kept side a l w w1 d.kept priced in
      let f =
        SameRungs-of side w w1 front
          (Rungs-apart side w w1 (levels w a).price_level front keep af rs) in
      let g =
        SameRungs-of side w w1 behind
          (Rungs-apart side w w1 (levels w a).price_level behind keep ab rest.1.1) in
      let same : All (λ c. levels w1 c ≡ levels w c) (addresses before) =
        subst (All (λ c. levels w1 c ≡ levels w c))
          (sym (map-append (λ (lv : ℕ × List ℕ). lv.0) front ((b, k) ∷ [])))
          (All-append (λ c. levels w1 c ≡ levels w c) (addresses front) (b ∷ []) f.levels_same
            (level_b, tt)) in
      subst₂ (λ (p : Ptr) (cs : List ℕ). LevelChain (levels w1) p cs)
        (sym (opposite_best-same side w w1 d.bids_same d.asks_same))
        (ap addresses (append_assoc front ((b, k) ∷ []) ((a, []) ∷ behind))
          ∙ map-append (λ (lv : ℕ × List ℕ). lv.0) front ((b, k) ∷ (a, []) ∷ behind))
        (change-LevelChain w w1 a l [] behind before (opposite_best side w) same d.next_level
          g.levels_same
          (subst (λ ls. LevelChain (levels w) (opposite_best side w) (addresses ls))
            (sym (append_assoc front ((b, k) ∷ []) ((a, l) ∷ behind))) ladder.chain))

  -- The levels before it have other prices.
  others_before :
      All (λ c. (levels w1 c).price_level ≢ (levels w1 a).price_level) (addresses front ++ b ∷ [])
  others_before =
      let (_, _, af, _, ne) = prices-IsApart in
      let (rs, rest) =
        All-parts (λ lv. Rung side w lv.0 lv.1) front ((b, k) ∷ (a, l) ∷ behind) ladder.rungs in
      let f = SameRungs-of side w w1 front (
        Rungs-apart side w w1 (levels w a).price_level front (Rung-Kept side a l w w1 d.kept priced)
          af rs) in
      All-append (λ c. (levels w1 c).price_level ≢ (levels w1 a).price_level) (addresses front)
        (b ∷ [])
        (Fresh-levels w1 (levels w1 a).price_level front
          (subst₂ (λ (p : ℕ) (ps : List ℕ). Fresh p ps) (sym d.price) (sym f.prices_same) af))
        ((λ e. ne (sym (ap PriceLevel.price_level level_b) ∙ e ∙ d.price)), tt)

  pub remove_price_level-gone : remove_price_level a w1 ≡ ok (tt, gone)
  remove_price_level-gone =
      let price = (levels w1 a).price_level in
      let fs = addresses front in
      let cs = addresses behind in
      let best = opposite_best side w1 in
      let h = d.shelf.housed in
      let (p, begins, other) =
        chain_begins (levels w1) price b fs (a ∷ cs) best chain_with_empty others_before in
      remove_price_level-behind w1 a b p
        (ap (λ (q : Bool). best_of q w1.book) h.level_side ∙ begins)
        (λ e. other (ap (λ (c : ℕ). (levels w1 c).price_level) (sym e))) a_ne_b
        (find_previous_level-before (suc w1.book.price_level_pool.size) (levels w1) price a b fs cs
          p (subst (λ q. LevelChain (levels w1) q (fs ++ b ∷ a ∷ cs)) begins chain_with_empty)
          others_before refl few_levels)
        h.below h.taken
