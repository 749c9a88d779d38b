-- ===== src/OrderBook/Front.antt =====
-- cppexchange/orderbook.h: the best level that incoming orders of one side meet, and price-time
-- priority within it.
use native.Mathlib.Decide.{ℕ_discrete}
use cpp_exchange.Prelude.{
  Option, ℕ, ◌+◌, ◌-◌, ◌≤◌, ◌<◌, ◌≡◌, ◌≢◌, refl, sym, ap, ◌∙◌, ap₂, subst, some, List, [], ◌∷◌, map,
  arith, ltb, if◌then◌else◌, Fresh, All, length, true, false, not,
}
use cpp_exchange.Order.{OrderSide, is_buy, Order, Orders}
use cpp_exchange.PriceLevel.Ring.{Ring, detach}
use cpp_exchange.OrderBook.State.{World, levels, orders, best_of}
use cpp_exchange.OrderBook.Loop.{opposite_best}
use cpp_exchange.OrderBook.UsedUp.{UsedUp}

-- The quantities of the orders at the addresses `l`.
abbrev pub quantities : Orders → List ℕ → List ℕ
quantities h l = map (λ o. (h o).quantity) l

abbrev pub total : List ℕ → ℕ
total [] = 0
total (q ∷ qs) = q + total qs

-- What is left of the quantities `qs`, the oldest first, when `n` is taken from them in that order.
abbrev pub eat : ℕ → List ℕ → List ℕ
eat n [] = []
eat n (q ∷ qs) = if ltb n q then (q - n) ∷ qs else eat (n - q) qs

-- Which of the orders `l` with the quantities `qs` are then left.
abbrev pub standing : ℕ → (qs l : List ℕ) → List ℕ
standing n (q ∷ qs) (o ∷ l) = if ltb n q then o ∷ l else standing (n - q) qs l
standing n _ _ = []

-- An order but for its pointers and its quantity.
abbrev pub identity : Order → Order
identity o = detach (record o { quantity = 0 })

-- The best level for an incoming order on `side` is at `a`, and holds the orders `l`, each at a
-- price that the map sends to that level and with a quantity to fill.
pub record Front (side : OrderSide) (w : World) (a : ℕ) (l : List ℕ) : Type 0 where
  pub best : opposite_best side w ≡ some a
  pub ring : Ring (orders w) (levels w a).top_order l
  pub mapped : All (λ o. w.book.price_levels (orders w o).limit_price ≡ some a) l
  pub positive : All (λ o. 0 < (orders w o).quantity) l
  pub room : length l ≤ w.book.order_pool.size + 1

All-except {ℓ} :
    {P Q : ℕ → Type ℓ} (o : ℕ) (l : List ℕ)
    → Fresh o l
    → ((b : ℕ) → b ≢ o → P b → Q b)
    → All P l
    → All Q l
All-except o [] f k ps = tt
All-except o (b ∷ l) f k ps = (k b (λ e. f.0 (sym e)) ps.0, All-except o l f.1 k ps.1)

pub map-except :
    {f g : ℕ → ℕ} (o : ℕ) (l : List ℕ)
    → Fresh o l
    → ((b : ℕ) → b ≢ o → f b ≡ g b)
    → map f l ≡ map g l
map-except o [] h k = refl
map-except o (b ∷ l) h k = ap₂ (λ x xs. x ∷ xs) (k b (λ e. h.0 (sym e))) (map-except o l h.1 k)

pub opposite_best-same :
    (side : OrderSide) (w w' : World)
    → w'.book.best_bids ≡ w.book.best_bids
    → w'.book.best_asks ≡ w.book.best_asks
    → opposite_best side w' ≡ opposite_best side w
opposite_best-same side w w' b s =
    elim (not (is_buy side)) as (λ k. best_of k w'.book ≡ best_of k w.book) [ true ↦ b | false ↦ s ]

module _ (order_id client_id : ℕ) (side : OrderSide) (quantity o : ℕ) (w w' : World) (a : ℕ)
    (l : List ℕ) (used : UsedUp order_id client_id side quantity o w a l w') where
  -- The rest of the level is a front again.
  pub UsedUp-Front : Front side w a (o ∷ l) → Front side w' a l
  UsedUp-Front f =
      let fresh = f.ring.2.0 in
      record {
        best = opposite_best-same side w w' used.told.bids_same used.told.asks_same ∙ f.best;
        ring = used.ring;
        mapped =
            All-except o l fresh
              (λ b ne h.
                ap (λ (x : Order). w'.book.price_levels x.limit_price) (used.payload b ne)
                ∙ ap (λ (m : ℕ → Option ℕ). m (orders w b).limit_price) used.told.map_same
                ∙ h)
              f.mapped.1;
        positive =
            All-except o l fresh
              (λ b ne h. subst (λ (x : Order). 0 < x.quantity) (sym (used.payload b ne)) h)
              f.positive.1;
        room = (let e = used.told.order_slots_same in let r = f.room in omega arith);
      }

  pub UsedUp-identity : (b : ℕ) → identity (orders w' b) ≡ identity (orders w b)
  UsedUp-identity b = elim (ℕ_discrete b o) [
    | yes e ↦
        subst (λ (k : ℕ). identity (orders w' k) ≡ identity (orders w k)) (sym e)
          (ap identity used.gone)
    | no ne ↦ ap identity (used.payload b ne)
  ]

  pub UsedUp-quantities : Fresh o l → quantities (orders w') l ≡ quantities (orders w) l
  UsedUp-quantities fresh = map-except o l fresh (λ b ne. ap Order.quantity (used.payload b ne))
