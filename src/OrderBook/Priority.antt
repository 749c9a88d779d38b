-- ===== src/OrderBook/Priority.antt =====
-- cppexchange/orderbook.h: `checkForMatch` against a whole side of the book, by price-time priority.
use native.Mathlib.Decide.{dec_lt}
use cpp_exchange.Prelude.{
  ℕ, suc, ◌-◌, ◌≤◌, ◌<◌, ◌≡◌, sym, ap, ◌∙◌, subst, List, [], ◌∷◌, map, arith, All, length, ltb,
  if◌then◌else◌, Bool, true, false,
}
use cpp_exchange.Order.{OrderSide, is_buy, Order, Orders, Ptr}
use cpp_exchange.OrderBook.Pools.{order_block_same}
use cpp_exchange.OrderBook.State.{World, levels, orders}
use cpp_exchange.OrderBook.Matching.{crosses}
use cpp_exchange.OrderBook.Front.{quantities, total, eat, standing}
use cpp_exchange.OrderBook.Eaten.{Eaten}
use cpp_exchange.OrderBook.Ladder.{Rung, All-map, price_of}

-- The prices and the quantities that a side offers, best price and oldest order first.
abbrev pub offers : World → List (ℕ × List ℕ) → List (ℕ × List ℕ)
offers w ls = map (λ lv. (price_of w lv, quantities (orders w) lv.1)) ls

-- What is left of the offers when `n` is taken from those at acceptable prices: whole levels first,
-- then the oldest orders of the level that has enough.
abbrev pub offers_left : (buy : Bool) (limit_price n : ℕ) → List (ℕ × List ℕ) → List (ℕ × List ℕ)
offers_left buy limit_price n [] = []
offers_left buy limit_price n ((p, qs) ∷ ls) =
    if crosses buy limit_price p
    then (if ltb n (total qs)
        then (p, eat n qs) ∷ ls
        else offers_left buy limit_price (n - total qs) ls)
    else (p, qs) ∷ ls

-- How much of `n` then stays unfilled.
abbrev pub unfilled : (buy : Bool) (limit_price n : ℕ) → List (ℕ × List ℕ) → ℕ
unfilled buy limit_price n [] = n
unfilled buy limit_price n ((p, qs) ∷ ls) =
    if crosses buy limit_price p
    then (if ltb n (total qs) then 0 else unfilled buy limit_price (n - total qs) ls)
    else n

total-eat : (n : ℕ) (qs : List ℕ) → n < total qs → total (eat n qs) ≡ total qs - n
total-eat n [] h = omega arith
total-eat n (q ∷ qs) h = elim (dec_lt n q) [
  | yes less ↦ (let t : ltb n q ≡ true = ground arith in rw t (omega arith))
  | no more ↦
      let t : ltb n q ≡ false = ground arith in
      rw t (omega (arith, total-eat (n - q) qs (omega arith)))
]

All-eat : (n : ℕ) (qs : List ℕ) → All (λ q. 0 < q) qs → All (λ q. 0 < q) (eat n qs)
All-eat n [] ps = tt
All-eat n (q ∷ qs) ps = elim (dec_lt n q) [
  | yes less ↦ (let t : ltb n q ≡ true = ground arith in rw t (omega arith, ps.1))
  | no more ↦ (let t : ltb n q ≡ false = ground arith in rw t (All-eat (n - q) qs ps.1))
]

All-quantities :
    (h : Orders) (l : List ℕ) → All (λ q. 0 < q) (quantities h l) → All (λ o. 0 < (h o).quantity) l
All-quantities h [] ps = tt
All-quantities h (o ∷ l) ps = (ps.0, All-quantities h l ps.1)

quantities-All :
    (h : Orders) (l : List ℕ) → All (λ o. 0 < (h o).quantity) l → All (λ q. 0 < q) (quantities h l)
quantities-All h [] ps = tt
quantities-All h (o ∷ l) ps = (ps.0, quantities-All h l ps.1)

All-standing {κ} : (P : ℕ → Type κ) (n : ℕ) (qs l : List ℕ) → All P l → All P (standing n qs l)
All-standing P n [] l ps = tt
All-standing P n (q ∷ qs) [] ps = tt
All-standing P n (q ∷ qs) (o ∷ l) ps =
    elim (ltb n q) as (λ k. All P (if k then o ∷ l else standing (n - q) qs l)) [
      | true ↦ ps
      | false ↦ All-standing P (n - q) qs l ps.1
    ]

length-standing : (n : ℕ) (qs l : List ℕ) → length (standing n qs l) ≤ length l
length-standing n [] l = omega arith
length-standing n (q ∷ qs) [] = omega arith
length-standing n (q ∷ qs) (o ∷ l) =
    elim (ltb n q) as (λ k. length (if k then o ∷ l else standing (n - q) qs l) ≤ suc (length l)) [
      | true ↦ omega arith
      | false ↦ omega (arith, length-standing (n - q) qs l)
    ]

-- The level that has enough is well formed with the orders that are left in it.
pub Rung-Eaten :
    (side : OrderSide) (n a : ℕ) (l : List ℕ) (w w' : World)
    → n < total (quantities (orders w) l)
    → Rung side w a l
    → Eaten n a l w w'
    → Rung side w' a (standing n (quantities (orders w) l) l)
Rung-Eaten side n a l w w' less r e =
    let qs = quantities (orders w) l in
    let left = total-eat n qs less in
    record {
      ring = e.ring;
      priced =
          All-standing (λ o. (orders w' o).limit_price ≡ (levels w' a).price_level) n qs l
            (All-map l (λ o p. ap Order.limit_price (e.identities o) ∙ p ∙ sym e.price) r.priced);
      listed =
          ap w'.book.price_levels e.price
          ∙ ap (λ (m : ℕ → Ptr). m (levels w a).price_level) e.map_same
          ∙ r.listed;
      positive = All-quantities (orders w') (standing n qs l) (
          subst (All (λ q. 0 < q)) (sym e.quantities_left)
            (All-eat n qs (quantities-All (orders w) l r.positive)));
      stocked = subst (λ (k : List ℕ). 0 < total k) (sym e.quantities_left) (omega arith);
      room =
          (let s = e.order_slots_same in let k = r.room in omega (arith, length-standing n qs l));
      in_pool =
          All-standing (λ o. o < w'.book.order_pool.size) n qs l
            (All-map l (λ o k. (let s = e.order_slots_same in omega arith)) r.in_pool);
      in_use =
          All-standing (λ o. (w'.book.order_pool.store o).available ≡ false) n qs l
            (All-map l (λ o u. order_block_same w w' e.pools o ∙ u) r.in_use);
      housed = record {
        level_side = ap is_buy e.level_side ∙ r.housed.level_side;
        below = (let s = e.level_slots_same in let k = r.housed.below in omega arith);
        taken = e.level_blocks_same a ∙ r.housed.taken;
      };
    }
