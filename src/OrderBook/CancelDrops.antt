-- ===== src/OrderBook/CancelDrops.antt =====
-- cppexchange/orderbook.h: `cancel` that empties a level behind the best of its side, on a whole book.
use mathlib.Core.Path.{subst₂}
use native.Mathlib.Decide.{ℕ_discrete}
use cpp_exchange.Prelude.{
  ℕ, ◌≡◌, refl, sym, ap, ◌∙◌, subst, some, none, List, [], ◌∷◌, ◌++◌, All, All-parts, Fresh,
  update_self, update_ne, append_assoc, false,
}
use cpp_exchange.Outcome.{ok}
use cpp_exchange.Order.{OrderSide, is_buy, Order, Ptr}
use cpp_exchange.PriceLevel.Cancel.{find_id, remove_id}
use cpp_exchange.OrderBook.State.{World, levels, orders}
use cpp_exchange.OrderBook.Entry.{cancel}
use cpp_exchange.OrderBook.Matching.{crosses}
use cpp_exchange.OrderBook.Pools.{Pools-trans, orders-IsValid}
use cpp_exchange.OrderBook.Quiet.{Quiet-trans}
use cpp_exchange.OrderBook.Front.{opposite_best-same}
use cpp_exchange.OrderBook.Ladder.{Rung, prices}
use cpp_exchange.OrderBook.Rungs.{SameRungs-of, Ladder-SameRungs}
use cpp_exchange.OrderBook.Priority.{offers}
use cpp_exchange.OrderBook.Sides.{opposite, Book, Uncrossed, Uncrossed-Fresh, price_in_the_middle}
use cpp_exchange.OrderBook.MatchedBook.{Book-book}
use cpp_exchange.OrderBook.Withdraw.{Withdrawn, cancel_at-Withdrawn}
use cpp_exchange.OrderBook.RemoveBehind.{relinked, relinked-Kept, freed-Kept, removed_behind-Quiet}
use cpp_exchange.OrderBook.WithoutLevel.{Rungs-apart_both, All-without, Fresh-with}
use cpp_exchange.OrderBook.CancelOrder.{
  told_cancel, cancel-empties, Cancelled, told_cancel-Cancelled,
}
use cpp_exchange.OrderBook.CancelBehind.{
  gone, still_gone, level_a, Ladder-Without, remove_price_level-gone,
}

module _ (side : OrderSide) (a y : ℕ) (l : List ℕ) (front : List (ℕ × List ℕ)) (b : ℕ) (k : List ℕ)
    (behind met : List (ℕ × List ℕ)) where
  Book-gone :
      (w w1 : World) (d : Withdrawn (opposite side) a y l [] w w1)
      (book : Book side w (front ++ (b, k) ∷ (a, l) ∷ behind) met)
      → let w2 = gone (opposite side) a y l front b k behind w w1 d book.own_ladder in
        Book side w2 (front ++ (b, k) ∷ behind) met
        × (offers w2 (front ++ (b, k) ∷ behind) ≡ offers w (front ++ (b, k) ∷ behind))
        × (offers w2 met ≡ offers w met)
  Book-gone w w1 d book =
      let s = opposite side in
      let w2 = gone s a y l front b k behind w w1 d book.own_ladder in
      let x = Ladder-Without s a y l front b k behind w w1 d book.own_ladder in
      let pb = (levels w b).price_level in
      let pa = (levels w a).price_level in
      let crossed_by = λ (p : ℕ). All (λ q. crosses (is_buy side) p q ≡ false) (prices w met) in
      let fresh_b =
        Uncrossed-Fresh (is_buy side) pb (prices w met)
          (price_in_the_middle crossed_by w front (b, k) ((a, l) ∷ behind) book.uncrossed) in
      let fresh_a = Uncrossed-Fresh (is_buy side) pa (prices w met) (
        price_in_the_middle crossed_by w (front ++ (b, k) ∷ []) (a, l) behind
          (subst (λ ls. All crossed_by (prices w ls))
            (sym (append_assoc front ((b, k) ∷ []) ((a, l) ∷ behind))) book.uncrossed)) in
      let m = SameRungs-of side w w2 met (
        Rungs-apart_both side w w2 pb pa met
          (still_gone s a y l front b k behind w w1 d book.own_ladder side) fresh_b fresh_a
          book.met_ladder.rungs) in
      let relinked_pools = (relinked-Kept a b w1).pools in
      let freed_pools = (freed-Kept a (relinked a b w1) d.shelf.housed.below).pools in
      let pools =
        Pools-trans w w1 w2 d.kept.pools
          (Pools-trans w1 (relinked a b w1) w2 relinked_pools freed_pools) in
      (
        record {
          own_ladder = x.ladder_without;
          met_ladder =
              Ladder-SameRungs side w w2 met book.met_ladder m
                (opposite_best-same side w w2 d.bids_same d.asks_same);
          uncrossed =
              subst₂ (Uncrossed (is_buy side)) (sym x.prices_same) (sym m.prices_same)
                (All-without w (b, k) (a, l) behind crossed_by front book.uncrossed);
          unlisted = λ p f g. elim (ℕ_discrete p pa) [
            | yes here ↦
                ap w2.book.price_levels
                  (here ∙ sym (level_a s a y l front b k behind w w1 d book.own_ladder))
                ∙ update_self w1.book.price_levels (levels (relinked a b w1) a).price_level none
            | no other ↦
                update_ne w1.book.price_levels (levels (relinked a b w1) a).price_level p none
                  (λ e. other (e ∙ level_a s a y l front b k behind w w1 d book.own_ladder))
                ∙ ap (λ (f : ℕ → Ptr). f p) d.map_same
                ∙ book.unlisted p
                    (Fresh-with w (b, k) (a, l) behind p front other
                      (subst (Fresh p) x.prices_same f))
                    (subst (Fresh p) m.prices_same g)
          ];
          orders_valid = orders-IsValid w w2 pools book.orders_valid;
          levels_valid = pools.level_valid book.levels_valid;
        },
        x.offers_without,
        m.offers_same,
      )

  -- On a book whose two sides are well formed, `cancel` of the only order of a level behind the best
  -- of its side: `removePriceLevel` finds the level before it, the level goes with the order, all
  -- other orders and levels keep their quantities and places, and the client and the market are told
  -- once each. Both sides are well formed again.
  pub cancel-drops_behind :
      (client_id order_id : ℕ) (asked : OrderSide) (limit_price : ℕ) (w : World)
      → Book side w (front ++ (b, k) ∷ (a, l) ∷ behind) met
      → (levels w a).price_level ≡ limit_price
      → find_id (orders w) order_id l ≡ some y
      → remove_id (orders w) order_id l ≡ []
      → (w' : World) × (cancel client_id order_id asked limit_price w ≡ ok (tt, w'))
        × Book side w' (front ++ (b, k) ∷ behind) met
        × (offers w' (front ++ (b, k) ∷ behind) ≡ offers w (front ++ (b, k) ∷ behind))
        × (offers w' met ≡ offers w met)
        × Cancelled client_id order_id asked limit_price y w w'
  cancel-drops_behind client_id order_id asked limit_price w book price found rest =
      let s = opposite side in
      let r =
        (All-parts (λ lv. Rung s w lv.0 lv.1) front ((b, k) ∷ (a, l) ∷ behind)
          book.own_ladder.rungs).1.1.0 in
      let (w1, done, d0) = cancel_at-Withdrawn s w a order_id y l r found in
      let d = subst (λ ls. Withdrawn s a y l ls w w1) rest d0 in
      let w2 = gone s a y l front b k behind w w1 d book.own_ladder in
      let (b2, own_same, met_same) = Book-gone w w1 d book in
      let w' = told_cancel client_id order_id asked limit_price y w2 in
      (
        w',
        cancel-empties client_id order_id asked limit_price w w1 w2 a y
            (ap w.book.price_levels (sym price) ∙ r.listed) done d.shelf.ring
            (remove_price_level-gone s a y l front b k behind w w1 d book.own_ladder),
        Book-book side w2 w' (front ++ (b, k) ∷ behind) met refl b2,
        own_same,
        met_same,
        told_cancel-Cancelled client_id order_id asked limit_price y w w2
            (Quiet-trans w w1 w2 d.quiet (removed_behind-Quiet a b w1))
            (ap Order.quantity (d.payload y)),
      )
