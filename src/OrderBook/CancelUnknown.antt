-- ===== src/OrderBook/CancelUnknown.antt =====
-- cppexchange/orderbook.h: `cancel` of an ID that no order at the price has.
use native.Mathlib.Decide.{ℕ_discrete}
use cpp_exchange.Prelude.{
  ℕ, suc, ◌≡◌, refl, sym, ap, ◌∙◌, subst, some, none, List, [], ◌∷◌, All, All-parts, inl, inr,
  arith, update, fun_ext, update_self, update_ne,
}
use cpp_exchange.Outcome.{ok}
use cpp_exchange.Order.{OrderSide}
use cpp_exchange.PriceLevel.{PriceLevel, top}
use cpp_exchange.PriceLevel.Cancel.{find_id, cancel-none}
use cpp_exchange.OrderBook.State.{World, levels, orders, set_level, now, respond}
use cpp_exchange.OrderBook.Levels.{get_price_level, get_price_level_index}
use cpp_exchange.OrderBook.Matching.{cancel_at}
use cpp_exchange.OrderBook.Entry.{cancel, cancel_in_level, report_cancel}
use cpp_exchange.OrderBook.Reject.{rejected, cancel-rejected}
use cpp_exchange.OrderBook.Ladder.{Rung, price_of}
use cpp_exchange.OrderBook.Sides.{Book, opposite}
use cpp_exchange.OrderBook.RestOrder.{Found, find_price}

-- A level written back as it was.
set_level-same : (w : World) (a : ℕ) → set_level w a (levels w a) ≡ w
set_level-same w a =
    ap
      (λ (m : ℕ → PriceLevel).
        let b = w.book in
        let p = b.price_level_pool in
        record w {
          book = record b {
            price_level_pool = record p { store = λ i. record (p.store i) { object = m i } };
          };
        })
      (fun_ext (λ i. elim (ℕ_discrete i a) [
        | yes same ↦
            subst (λ j. update (levels w) a (levels w a) j ≡ levels w j) (sym same)
              (update_self (levels w) a (levels w a))
        | no other ↦ update_ne (levels w) a i (levels w a) other
      ]))

module _ (client_id order_id : ℕ) (asked : OrderSide) (limit_price : ℕ) (w : World) where
  -- No order at the price has the ID.
  abbrev pub Unknown : List (ℕ × List ℕ) → Type 0
  Unknown ls = All (λ lv. price_of w lv ≡ limit_price → find_id (orders w) order_id lv.1 ≡ none) ls

  cancel-reported :
      (a b : ℕ)
      → w.book.price_levels limit_price ≡ some a
      → (levels w a).top_order ≡ some b
      → cancel_at a order_id w ≡ ok (none, w)
      → cancel client_id order_id asked limit_price w ≡ ok (tt, rejected client_id order_id w)
  unfolding cancel cancel_in_level report_cancel get_price_level get_price_level_index top now
      respond
  cancel-reported a b level stays done = rw (level, done, stays) refl

  -- A level keeps all its orders, and so stays in the book.
  cancel-missing_at :
      (side : OrderSide) (a : ℕ) (l : List ℕ)
      → Rung side w a l
      → (levels w a).price_level ≡ limit_price
      → find_id (orders w) order_id l ≡ none
      → cancel client_id order_id asked limit_price w ≡ ok (tt, rejected client_id order_id w)
  unfolding cancel_at
  cancel-missing_at side a [] r price missing = absurd (let p = r.stocked in omega arith)
  cancel-missing_at side a (c ∷ l) r price missing =
      let none_found =
        cancel-none (suc w.book.order_pool.size) (levels w a) order_id (orders w) c l r.ring missing
          (let p = r.room in omega arith) in
      cancel-reported a c (ap w.book.price_levels (sym price) ∙ r.listed) (r.ring.0)
        (rw none_found (ap (λ (x : World). ok (none, x)) (set_level-same w a)))

  cancel-missing_in :
      (side : OrderSide) (ls : List (ℕ × List ℕ))
      → All (λ lv. Rung side w lv.0 lv.1) ls
      → Unknown ls
      → Found w limit_price ls
      → cancel client_id order_id asked limit_price w ≡ ok (tt, rejected client_id order_id w)
  cancel-missing_in side ls rungs unknown (before, a, l, behind, e, price) =
      let r =
        (All-parts (λ lv. Rung side w lv.0 lv.1) before ((a, l) ∷ behind)
          (subst (All (λ lv. Rung side w lv.0 lv.1)) e rungs)).1.0 in
      let none_there =
        (All-parts (λ lv. price_of w lv ≡ limit_price → find_id (orders w) order_id lv.1 ≡ none)
          before ((a, l) ∷ behind) (subst Unknown e unknown)).1.0 in
      cancel-missing_at side a l r price (none_there price)

  -- On a book whose two sides are well formed, `cancel` of an ID that no order at the price has, on
  -- either side, returns, whether the price has a level or not: the client is told that the cancel
  -- is rejected, and the book, the market's messages and the trade counter stay as they were.
  pub cancel-missing :
      (side : OrderSide) (own met : List (ℕ × List ℕ))
      → Book side w own met
      → Unknown own
      → Unknown met
      → cancel client_id order_id asked limit_price w ≡ ok (tt, rejected client_id order_id w)
  cancel-missing side own met book none_own none_met = elim (find_price w limit_price own) [
    | inr found ↦ cancel-missing_in (opposite side) own book.own_ladder.rungs none_own found
    | inl not_own ↦ elim (find_price w limit_price met) [
      | inr found ↦ cancel-missing_in side met book.met_ladder.rungs none_met found
      | inl not_met ↦
          cancel-rejected client_id order_id asked limit_price w
            (book.unlisted limit_price not_own not_met)
    ]
  ]
