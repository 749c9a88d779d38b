-- ===== src/OrderBook/LevelChain.antt =====
-- cppexchange/orderbook.h: the chain of price levels of one side, from the best on, and the walks
-- along it.
use cpp_exchange.Prelude.{
  ℕ, zero, suc, ◌<◌, ◌≡◌, refl, sym, ap, ◌∙◌, some, none, List, [], ◌∷◌, arith, update, Bool,
  Bool-cases, inl, inr, if◌then◌else◌, update_ne, length, Fresh, All, subst,
}
use cpp_exchange.Outcome.{ok}
use cpp_exchange.Order.{Ptr}
use cpp_exchange.PriceLevel.{PriceLevel, get_price, get_next_price_level}
use cpp_exchange.OrderBook.Levels.{goes_behind, find_next_level}

-- The level memory: the objects of the level pool.
abbrev pub Levels : Type 0
Levels = ℕ → PriceLevel

-- From `p` the `next_price_level` pointers lead through `cs` to nullptr.
abbrev pub LevelChain : Levels → Ptr → List ℕ → Type 0
LevelChain m p [] = p ≡ none
LevelChain m p (a ∷ cs) = (p ≡ some a) × LevelChain m (m a).next_price_level cs

abbrev pub head_ptr : List ℕ → Ptr
head_ptr [] = none
head_ptr (a ∷ cs) = some a

-- The levels that a level at `price` does not stand behind.
abbrev pub not_before : Levels → Bool → ℕ → List ℕ → List ℕ
not_before m buy price [] = []
not_before m buy price (a ∷ cs) =
    if goes_behind buy price (m a).price_level then not_before m buy price cs else a ∷ cs

-- A write to a level outside the chain leaves the chain alone.
pub LevelChain-update :
    (m : Levels) (x : ℕ) (l : PriceLevel) (p : Ptr) (cs : List ℕ)
    → Fresh x cs
    → LevelChain m p cs
    → LevelChain (update m x l) p cs
LevelChain-update m x l p [] f c = c
LevelChain-update m x l p (a ∷ cs) f c = (
  c.0,
  subst (λ (k : PriceLevel). LevelChain (update m x l) k.next_price_level cs)
      (sym (update_ne m x a l (λ e. f.0 (sym e))))
      (LevelChain-update m x l (m a).next_price_level cs f.1 c.1),
)

-- A memory that agrees on the chain has the chain.
pub LevelChain-of_same :
    (m n : Levels) (p : Ptr) (cs : List ℕ)
    → All (λ (a : ℕ). n a ≡ m a) cs
    → LevelChain m p cs
    → LevelChain n p cs
LevelChain-of_same m n p [] same c = c
LevelChain-of_same m n p (a ∷ cs) same c = (
  c.0,
  subst (λ (k : PriceLevel). LevelChain n k.next_price_level cs) (sym same.0)
      (LevelChain-of_same m n (m a).next_price_level cs same.1 c.1),
)

-- The walk of `insertPriceLevel` along a chain ends, with fuel for its length, at the first level
-- that the new one does not stand behind.
pub find_next_level-not_before :
    (fuel : ℕ) (m : Levels) (buy : Bool) (price : ℕ) (p : Ptr) (cs : List ℕ)
    → LevelChain m p cs
    → length cs < fuel
    → (find_next_level fuel m buy price p ≡ ok (head_ptr (not_before m buy price cs)))
      × LevelChain m (head_ptr (not_before m buy price cs)) (not_before m buy price cs)
unfolding find_next_level get_price get_next_price_level
find_next_level-not_before zero m buy price p cs c f = absurd (omega arith)
find_next_level-not_before (suc fuel) m buy price p [] c f =
    (ap (find_next_level (suc fuel) m buy price) c, refl)
find_next_level-not_before (suc fuel) m buy price p (a ∷ cs) c f =
    elim (Bool-cases (goes_behind buy price (m a).price_level)) [
      | inl behind ↦
          let (found, chain) =
            find_next_level-not_before fuel m buy price (m a).next_price_level cs c.1
              (omega arith) in
          (ap (find_next_level (suc fuel) m buy price) c.0 ∙ rw behind (rw found), rw behind chain)
      | inr here ↦ (ap (find_next_level (suc fuel) m buy price) c.0 ∙ rw here, rw here (refl, c.1))
    ]
