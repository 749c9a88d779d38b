-- ===== src/OrderBook/Levels.antt =====
-- cppexchange/orderbook.h: the price levels, in a chain from the best on and in a map by price.
use cpp_exchange.Prelude.{
  ℕ, zero, suc, Bool, true, false, none, some, update, ltb, ◌==◌, if◌then◌else◌,
}
use cpp_exchange.Outcome
use cpp_exchange.Outcome.{Outcome, ok, out_of_fuel}
use cpp_exchange.ObjectPool.{get_object, release_object}
use cpp_exchange.Order.{OrderSide, is_buy, Ptr, ptr_eq, address}
use cpp_exchange.PriceLevel.{
  PriceLevel, make_price_level, get_price, get_next_price_level, get_side, set_next_price_level,
}
use cpp_exchange.OrderBook.State.{
  Cmd, pure, ◌>>=◌, ◌>>◌, lift, gets, modify, levels, with_book, set_level, best_of, with_best,
}

unfoldable pub get_price_level_index : ℕ → ℕ
get_price_level_index price = price

-- The test of the two walks: the level at `price` stands behind one at `other`.
unfoldable pub goes_behind : Bool → (price other : ℕ) → Bool
goes_behind true price other = ltb price other
goes_behind false price other = ltb other price

-- The loops of `insertPriceLevel`: the first level that does not stand before `price`.
unfoldable pub find_next_level : ℕ → (ℕ → PriceLevel) → Bool → ℕ → Ptr → Outcome Ptr
find_next_level zero m buy price next = out_of_fuel
find_next_level (suc fuel) m buy price none = ok none
find_next_level (suc fuel) m buy price (some a) =
    let rest = find_next_level fuel m buy price (get_next_price_level (m a)) in
    if goes_behind buy price (get_price (m a)) then rest else ok (some a)

-- `price_level_pool.getObject` with the constructor's arguments.
unfoldable pub allocate_level : PriceLevel → Cmd ℕ
allocate_level l w =
    let b = w.book in
    Outcome.◌>>=◌ (get_object b.price_level_pool l)
      (λ r. ok (r.0, with_book w (record b { price_level_pool = r.1 })))

-- A walk passes each level at most once; the bound is the number of levels that there can be.
unfoldable pub insert_price_level : (price : ℕ) → OrderSide → (index : ℕ) → Cmd Ptr
insert_price_level price side index = do
  best ← gets (λ w. best_of (is_buy side) w.book)
  fuel ← gets (λ w. suc w.book.price_level_pool.size)
  m ← gets levels
  next ← lift (find_next_level fuel m (is_buy side) price best)
  a ← allocate_level (make_price_level side price next)
  modify (λ w.
      let b = w.book in
      with_book w (record b { price_levels = update b.price_levels index (some a) }))
  modify
      (λ w. if ptr_eq next best then with_book w (with_best (is_buy side) w.book (some a)) else w)
  pure (some a)

unfoldable pub get_price_level : (price : ℕ) → OrderSide → (create_if_missing : Bool) → Cmd Ptr
get_price_level price side create_if_missing = do
  let index = get_price_level_index price
  found ← gets (λ w. w.book.price_levels index)
  elim found [
    | some a ↦ pure (some a)
    | none ↦ if create_if_missing then insert_price_level price side index else pure none
  ]

-- The loop of `removePriceLevel`, at the level `previous`.
unfoldable pub find_previous_level : ℕ → (ℕ → PriceLevel) → ℕ → ℕ → Outcome ℕ
find_previous_level zero m price previous = out_of_fuel
find_previous_level (suc fuel) m price previous =
    Outcome.◌>>=◌ (address (get_next_price_level (m previous))) (λ next.
      let rest = find_previous_level fuel m price next in
      if get_price (m next) == price then ok previous else rest)

-- The writes of `removePriceLevel` that take the level out of the chain of its side.
unfoldable pub unchain_level : (a : ℕ) → PriceLevel → Ptr → Cmd (Unit {0})
unchain_level a l none =
    modify (λ w. with_book w (with_best (is_buy (get_side l)) w.book (get_next_price_level l)))
unchain_level a l (some best) = do
  fuel ← gets (λ w. suc w.book.price_level_pool.size)
  m ← gets levels
  previous ← lift (find_previous_level fuel m (get_price l) best)
  modify (λ w.
      set_level w previous (set_next_price_level (levels w previous) (get_next_price_level l)))

-- The level stands at the address `a`.
unfoldable pub remove_price_level : ℕ → Cmd (Unit {0})
remove_price_level a = do
  l ← gets (λ w. levels w a)
  best ← gets (λ w. best_of (is_buy (get_side l)) w.book)
  unchain_level a l (if ptr_eq (some a) best then none else best)
  modify (λ w.
      let b = w.book in
      with_book w (record b {
        price_levels = update b.price_levels (get_price_level_index (get_price l)) none;
      }))
  freed ← (λ w. Outcome.◌>>=◌ (release_object w.book.price_level_pool a) (λ p. ok (p, w)))
  modify (λ w. with_book w (record (w.book) { price_level_pool = freed }))
