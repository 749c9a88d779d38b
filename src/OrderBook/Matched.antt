-- ===== src/OrderBook/Matched.antt =====
-- cppexchange/orderbook.h: a side of the book after `checkForMatch` has taken from it.
use native.Mathlib.Decide.{ℕ_discrete}
use mathlib.Core.Path.{subst₂}
use cpp_exchange.Prelude.{
  ℕ, ◌-◌, ◌≤◌, ◌<◌, ◌≡◌, refl, sym, ap, ◌∙◌, ap₂, subst, List, [], ◌∷◌, map, arith, Fresh, ltb,
  if◌then◌else◌, Bool, true, false, not, none,
}
use cpp_exchange.Order.{OrderSide, is_buy, Ptr}
use cpp_exchange.PriceLevel.{PriceLevel}
use cpp_exchange.OrderBook.Pools.{Pools, Pools-same, Pools-trans}
use cpp_exchange.OrderBook.State.{World, levels, orders, best_of}
use cpp_exchange.OrderBook.Matching.{crosses}
use cpp_exchange.OrderBook.LevelChain.{LevelChain, LevelChain-of_same}
use cpp_exchange.OrderBook.Front.{quantities, total, standing, identity, opposite_best-same}
use cpp_exchange.OrderBook.Eaten.{Eaten}
use cpp_exchange.OrderBook.Drain.{Drained}
use cpp_exchange.OrderBook.Ladder.{Rung, Ladder, Ranked, Ranked-Fresh, prices}
use cpp_exchange.OrderBook.Frame.{
  StillRung, StillRung-trans, StillRung-book, Rung-Kept, Eaten-Kept, Drained-Kept,
}
use cpp_exchange.OrderBook.Rungs.{rungs-Kept}
use cpp_exchange.OrderBook.Priority.{offers, offers_left, Rung-Eaten}

-- The levels with their orders that are left when `n` is taken from what they offer.
abbrev pub ladder_left :
    (buy : Bool) (limit_price n : ℕ) → (offered ls : List (ℕ × List ℕ)) → List (ℕ × List ℕ)
ladder_left buy limit_price n ((p, qs) ∷ os) ((a, l) ∷ ls) =
    if crosses buy limit_price p
    then (if ltb n (total qs)
        then (a, standing n qs l) ∷ ls
        else ladder_left buy limit_price (n - total qs) os ls)
    else (a, l) ∷ ls
ladder_left buy limit_price n _ _ = []

-- The side `ls` has given `n`, at acceptable prices, and is well formed; no order has changed but in
-- its pointers and its quantity, and the best level of the incoming order's own side is the same. A
-- level at a price that the side lacks is what it was. Where the map had nothing at the prices that
-- the side lacked, it has nothing at those that the side lacks now.
pub record Matched (side : OrderSide) (limit_price n : ℕ) (ls : List (ℕ × List ℕ)) (w w' : World)
    : Type 0 where
  pub ladder : Ladder side w' (ladder_left (is_buy side) limit_price n (offers w ls) ls)
  pub offered :
      offers w' (ladder_left (is_buy side) limit_price n (offers w ls) ls)
      ≡ offers_left (is_buy side) limit_price n (offers w ls)
  pub identities : (b : ℕ) → identity (orders w' b) ≡ identity (orders w b)
  pub own_best : best_of (is_buy side) w'.book ≡ best_of (is_buy side) w.book
  pub others :
      (s : OrderSide) (b : ℕ) (m : List ℕ)
      → Fresh (levels w b).price_level (prices w ls)
      → Rung s w b m
      → StillRung s b m w w'
  pub unlisted :
      (p : ℕ)
      → (Fresh p (prices w ls) → w.book.price_levels p ≡ none)
      → Fresh p (prices w' (ladder_left (is_buy side) limit_price n (offers w ls) ls))
      → w'.book.price_levels p ≡ none
  pub pools : Pools w w'

pub Matched-nil :
    (side : OrderSide) (limit_price n : ℕ) (w : World)
    → Ladder side w []
    → Matched side limit_price n [] w w
Matched-nil side limit_price n w ladder = record {
  ladder = ladder;
  offered = refl;
  identities = λ b. refl;
  own_best = refl;
  others = λ s b m f r. StillRung-book s b m w w refl r;
  unlisted = λ p k f. k f;
  pools = Pools-same w w refl refl;
}

module _ (side : OrderSide) (limit_price n a : ℕ) (l : List ℕ) (ls : List (ℕ × List ℕ))
    (w w' : World) (ladder : Ladder side w ((a, l) ∷ ls)) where
  -- The best level has no acceptable price.
  pub Matched-none :
      crosses (is_buy side) limit_price (levels w a).price_level ≡ false
      → Matched side limit_price n ((a, l) ∷ ls) w w
  Matched-none refused = record {
    ladder = rw refused ladder;
    offered = rw refused refl;
    identities = λ b. refl;
    own_best = refl;
    others = λ s b m f r. StillRung-book s b m w w refl r;
    unlisted = λ p. rw refused (λ k f. k f);
    pools = Pools-same w w refl refl;
  }

  Ladder-Eaten :
      n < total (quantities (orders w) l)
      → Eaten n a l w w'
      → Ladder side w' ((a, standing n (quantities (orders w) l) l) ∷ ls)
  Ladder-Eaten less e =
      let kept = Eaten-Kept n a l w w' e in
      let r = ladder.rungs.0 in
      let s =
        rungs-Kept side a l w w' kept r.priced ls
          (Ranked-Fresh (not (is_buy side)) (levels w a).price_level (prices w ls) ladder.ranked.0)
          ladder.rungs.1 in
      record {
        chain = (
          opposite_best-same side w w' e.bids_same e.asks_same ∙ ladder.chain.0,
          subst (λ (p : Ptr). LevelChain (levels w') p (map (λ (lv : ℕ × List ℕ). lv.0) ls))
              (sym e.next_level)
              (LevelChain-of_same (levels w) (levels w') (levels w a).next_price_level
                (map (λ (lv : ℕ × List ℕ). lv.0) ls) s.levels_same ladder.chain.1),
        );
        rungs = (Rung-Eaten side n a l w w' less r e, s.rungs);
        ranked =
            subst₂ (λ (p : ℕ) (ps : List ℕ). Ranked (not (is_buy side)) (p ∷ ps)) (sym e.price)
              (sym s.prices_same) ladder.ranked;
      }

  pub Matched-Eaten :
      crosses (is_buy side) limit_price (levels w a).price_level ≡ true
      → n < total (quantities (orders w) l)
      → Eaten n a l w w'
      → Matched side limit_price n ((a, l) ∷ ls) w w'
  Matched-Eaten accepted less e =
      let t : ltb n (total (quantities (orders w) l)) ≡ true = ground arith in
      let kept = Eaten-Kept n a l w w' e in
      let s =
        rungs-Kept side a l w w' kept ladder.rungs.0.priced ls
          (Ranked-Fresh (not (is_buy side)) (levels w a).price_level (prices w ls) ladder.ranked.0)
          ladder.rungs.1 in
      record {
        ladder = rw (accepted, t) (Ladder-Eaten less e);
        offered =
            rw (accepted, t)
              (ap₂ (λ o os. o ∷ os) (ap₂ (λ p q. (p, q)) e.price e.quantities_left) s.offers_same);
        identities = e.identities;
        own_best = elim (is_buy side) as (λ k. best_of k w'.book ≡ best_of k w.book) [
          | true ↦ e.bids_same
          | false ↦ e.asks_same
        ];
        others = λ s b m f r. Rung-Kept s a l w w' kept ladder.rungs.0.priced b m f.0 r;
        unlisted = λ p k.
            rw (accepted, t)
              (λ f.
                ap (λ (m : ℕ → Ptr). m p) e.map_same
                ∙ k (subst₂ (λ (q : ℕ) (ps : List ℕ). Fresh p (q ∷ ps)) e.price s.prices_same f));
        pools = e.pools;
      }

  -- The levels behind one that is used up are the side that is left.
  pub Ladder-Drained :
      Drained side a l w w'
      → Ladder side w' ls × (offers w' ls ≡ offers w ls) × (prices w' ls ≡ prices w ls)
  Ladder-Drained d =
      let kept = Drained-Kept side a l w w' d in
      let s =
        rungs-Kept side a l w w' kept ladder.rungs.0.priced ls
          (Ranked-Fresh (not (is_buy side)) (levels w a).price_level (prices w ls) ladder.ranked.0)
          ladder.rungs.1 in
      let cs = map (λ (lv : ℕ × List ℕ). lv.0) ls in
      (
        record {
          chain =
              subst (λ (p : Ptr). LevelChain (levels w') p cs) (sym d.best)
                (LevelChain-of_same (levels w) (levels w') (levels w a).next_price_level cs
                  s.levels_same ladder.chain.1);
          rungs = s.rungs;
          ranked = subst (Ranked (not (is_buy side))) (sym s.prices_same) ladder.ranked.1;
        },
        s.offers_same,
        s.prices_same,
      )

  -- What the map has nothing at when the level is gone.
  unlisted-Drained :
      (p : ℕ)
      → Drained side a l w w'
      → (Fresh p (prices w ((a, l) ∷ ls)) → w.book.price_levels p ≡ none)
      → Fresh p (prices w ls)
      → w'.book.price_levels p ≡ none
  unlisted-Drained p d k f = elim (ℕ_discrete p (levels w a).price_level) [
    | yes here ↦ ap w'.book.price_levels here ∙ d.erased
    | no other ↦ d.other_prices p other ∙ k (other, f)
  ]

  pub Matched-Drained :
      (w2 : World)
      → crosses (is_buy side) limit_price (levels w a).price_level ≡ true
      → total (quantities (orders w) l) ≤ n
      → Drained side a l w w'
      → Matched side limit_price (n - total (quantities (orders w) l)) ls w' w2
      → Matched side limit_price n ((a, l) ∷ ls) w w2
  Matched-Drained w2 accepted enough d m =
      let t : ltb n (total (quantities (orders w) l)) ≡ false = ground arith in
      let buy = is_buy side in
      let rest = n - total (quantities (orders w) l) in
      let (ladder', same, prices_same) = Ladder-Drained d in
      let kept = Drained-Kept side a l w w' d in
      record {
        ladder =
            rw (accepted, t)
              (subst
                (λ (os : List (ℕ × List ℕ)).
                  Ladder side w2 (ladder_left buy limit_price rest os ls))
                same m.ladder);
        offered =
            rw (accepted, t)
              (subst
                (λ (os : List (ℕ × List ℕ)).
                  offers w2 (ladder_left buy limit_price rest os ls)
                  ≡ offers_left buy limit_price rest os)
                same m.offered);
        identities = λ b. m.identities b ∙ d.identities b;
        own_best = m.own_best ∙ d.own_best;
        others = λ s b k f r.
            let still = Rung-Kept s a l w w' kept ladder.rungs.0.priced b k f.0 r in
            StillRung-trans s b k w w' w2 still (
              m.others s b k
                (subst₂ (λ (p : ℕ) (ps : List ℕ). Fresh p ps)
                  (sym (ap PriceLevel.price_level still.level_same)) (sym prices_same) f.1)
                still.rung);
        unlisted = λ p k.
            rw (accepted, t)
              (subst
                (λ (os : List (ℕ × List ℕ)).
                  Fresh p (prices w2 (ladder_left buy limit_price rest os ls))
                  → w2.book.price_levels p ≡ none)
                same (m.unlisted p (λ f. unlisted-Drained p d k (subst (Fresh p) prices_same f))));
        pools = Pools-trans w w' w2 d.pools m.pools;
      }
