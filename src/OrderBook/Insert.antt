-- ===== src/OrderBook/Insert.antt =====
-- cppexchange/orderbook.h: what `insertPriceLevel` does to the chain of its side.
use mathlib.Core.Path.{subst₂}
use cpp_exchange.Prelude.{
  ℕ, suc, ◌≤◌, ◌≡◌, refl, sym, ap, ◌∙◌, some, none, List, [], ◌∷◌, arith, update, true, false, Bool,
  Bool-cases, inl, inr, if◌then◌else◌, update_self, length, Fresh, subst, eq_self,
}
use cpp_exchange.Outcome.{ok}
use cpp_exchange.ObjectPool.{ObjectPool, ObjectBlock, get_object}
use cpp_exchange.ObjectPool.Laws.{IsValid, free_count, Taken, get_object-Taken}
use cpp_exchange.Order.{Ptr, ptr_eq, OrderSide, is_buy}
use cpp_exchange.PriceLevel.{PriceLevel, make_price_level}
use cpp_exchange.OrderBook.Pools.{InUse, Fresh-of_free, same_objects}
use cpp_exchange.OrderBook.State.{OrderBook, World, levels, objects, with_book, best_of, with_best}
use cpp_exchange.OrderBook.Levels.{goes_behind, find_next_level, insert_price_level, allocate_level}
use cpp_exchange.OrderBook.LevelChain.{
  Levels, LevelChain, head_ptr, not_before, LevelChain-of_same, find_next_level-not_before,
}

ptr_eq_self : (p : Ptr) → ptr_eq p p ≡ true
ptr_eq_self none = refl
ptr_eq_self (some a) = eq_self a

-- What is left of a chain after its first levels does not begin with a level that it lacks.
head-not_before_ne :
    (m : Levels) (buy : Bool) (price x : ℕ) (cs : List ℕ)
    → Fresh x cs
    → ptr_eq (head_ptr (not_before m buy price cs)) (some x) ≡ false
head-not_before_ne m buy price x [] f = refl
head-not_before_ne m buy price x (a ∷ cs) f =
    elim (Bool-cases (goes_behind buy price (m a).price_level)) [
      | inl behind ↦ rw behind (head-not_before_ne m buy price x cs f.1)
      | inr here ↦ rw here (ground (arith, f.0))
    ]

-- The state after a level is taken from the pool `p'` at the address `a`, before `next`.
abbrev inserted : World → OrderSide → (index a : ℕ) → ObjectPool PriceLevel → Ptr → World
inserted w side index a p' next =
    let b = w.book in
    let w1 =
      with_book w
        (record b { price_level_pool = p'; price_levels = update b.price_levels index (some a) }) in
    if ptr_eq next (best_of (is_buy side) b)
    then with_book w1 (with_best (is_buy side) w1.book (some a))
    else w1

best_of_pool :
    (buy : Bool) (b : OrderBook) (p : ObjectPool PriceLevel) (f : ℕ → Ptr)
    → best_of buy (record b { price_level_pool = p; price_levels = f }) ≡ best_of buy b
best_of_pool true b p f = refl
best_of_pool false b p f = refl

insert_price_level-inserted :
    (price : ℕ) (side : OrderSide) (index a : ℕ) (w : World) (next : Ptr)
    (p' : ObjectPool PriceLevel)
    → find_next_level
        (suc w.book.price_level_pool.size)
        (levels w)
        (is_buy side)
        price
        (best_of (is_buy side) w.book)
      ≡ ok next
    → get_object w.book.price_level_pool (make_price_level side price next) ≡ ok (a, p')
    → insert_price_level price side index w ≡ ok (some a, inserted w side index a p' next)
unfolding insert_price_level allocate_level
insert_price_level-inserted price side index a w next p' found got = rw (found, got)

best_of-with_best : (buy : Bool) (b : OrderBook) (p : Ptr) → best_of buy (with_best buy b p) ≡ p
best_of-with_best true b p = refl
best_of-with_best false b p = refl

levels-with_best :
    (buy : Bool) (w : World) (b : OrderBook) (p : Ptr)
    → levels (with_book w (with_best buy b p)) ≡ objects b.price_level_pool
levels-with_best true w b p = refl
levels-with_best false w b p = refl

map_with_best :
    (buy : Bool) (b : OrderBook) (p : Ptr) → (with_best buy b p).price_levels ≡ b.price_levels
map_with_best true b p = refl
map_with_best false b p = refl

-- What a level's insertion always promises: the block `a` was free, the map has it at `index`, and
-- it holds a level of the given side and price, before `next`.
pub record Inserted (w : World) (price : ℕ) (side : OrderSide) (index a : ℕ) (next : Ptr)
    (w' : World) : Type 0 where
  pub was_free : (w.book.price_level_pool.store a).available ≡ true
  pub in_map : w'.book.price_levels index ≡ some a
  pub level : levels w' a ≡ make_price_level side price next

pub chain_head : (m : Levels) (p : Ptr) (cs : List ℕ) → LevelChain m p cs → p ≡ head_ptr cs
chain_head m p [] c = c
chain_head m p (a ∷ cs) c = c.0

-- The best levels and the levels' memory after a level became the best.
abbrev pub crowned : World → OrderSide → (index a : ℕ) → ObjectPool PriceLevel → World
crowned w side index a p' =
    let b = w.book in
    let b1 : OrderBook = record b {
      price_level_pool = p';
      price_levels = update b.price_levels index (some a);
    } in
    with_book w (with_best (is_buy side) b1 (some a))

module _ (price : ℕ) (side : OrderSide) (index : ℕ) (w : World) (cs : List ℕ)
    (valid : IsValid w.book.price_level_pool) (room : 2 ≤ free_count w.book.price_level_pool)
    (chain : LevelChain (levels w) (best_of (is_buy side) w.book) cs)
    (in_use : InUse w.book.price_level_pool cs)
    (small : length cs ≤ w.book.price_level_pool.size) where
  -- A new price that no level of the side stands before becomes the best.
  pub insert_price_level-crowned :
      not_before (levels w) (is_buy side) price cs ≡ cs
      → let a = w.book.price_level_pool.next_free in
        let l = make_price_level side price (head_ptr cs) in
        (p' : ObjectPool PriceLevel) × (insert_price_level price side index w
          ≡ ok (some a, crowned w side index a p'))
        × Taken w.book.price_level_pool l a p'
  insert_price_level-crowned first =
      let b = w.book in
      let a = b.price_level_pool.next_free in
      let best = best_of (is_buy side) b in
      let next = head_ptr cs in
      let (p', got, t) =
        get_object-Taken b.price_level_pool (make_price_level side price next) valid room in
      let w' = crowned w side index a p' in
      let found =
        (find_next_level-not_before (suc b.price_level_pool.size) (levels w) (is_buy side) price
          best cs chain (omega arith)).0
        ∙ ap (λ (k : List ℕ). ok (head_ptr k)) first in
      let b1 : OrderBook = record b {
        price_level_pool = p';
        price_levels = update b.price_levels index (some a);
      } in
      (
        p',
        insert_price_level-inserted price side index a w next p' found got
            ∙ ap (λ (q : Bool). ok (some a, if q then w' else with_book w b1))
                (ap (ptr_eq next) (chain_head (levels w) best cs chain) ∙ ptr_eq_self next),
        t,
      )

  -- A new price that no level of the side stands before becomes the best: the chain is the old one
  -- behind the new level.
  pub insert_price_level-best :
      not_before (levels w) (is_buy side) price cs ≡ cs
      → let a = w.book.price_level_pool.next_free in
        (w' : World) × (insert_price_level price side index w ≡ ok (some a, w'))
        × (best_of (is_buy side) w'.book ≡ some a)
        × LevelChain (levels w') (some a) (a ∷ cs)
        × Inserted w price side index a (head_ptr cs) w'
  insert_price_level-best first =
      let b = w.book in
      let a = b.price_level_pool.next_free in
      let best = best_of (is_buy side) b in
      let next = head_ptr cs in
      let (p', done, t) = insert_price_level-crowned first in
      let w' = crowned w side index a p' in
      let fresh = Fresh-of_free b.price_level_pool a cs t.was_free in_use in
      let map' = update b.price_levels index (some a) in
      let b1 : OrderBook = record b { price_level_pool = p'; price_levels = map' } in
      let mem = levels-with_best (is_buy side) w b1 (some a) in
      let here : levels w' a ≡ make_price_level side price next =
        ap (λ (m : Levels). m a) mem ∙ ap ObjectBlock.object t.holds in
      let old =
        LevelChain-of_same (levels w) (objects p') best cs
          (same_objects b.price_level_pool p' a (make_price_level side price next) cs t fresh)
          chain in
      (
        w',
        done,
        best_of-with_best (is_buy side) b1 (some a),
        (
          refl,
          subst₂ (λ (m : Levels) (q : Ptr). LevelChain m q cs) (sym mem)
              (chain_head (levels w) best cs chain ∙ sym (ap PriceLevel.next_price_level here)) old,
        ),
        record {
          was_free = t.was_free;
          in_map =
              ap (λ (f : ℕ → Ptr). f index) (map_with_best (is_buy side) b1 (some a))
              ∙ update_self b.price_levels index (some a);
          level = here;
        },
      )

  -- A new price that stands behind the best level gets a level that is in the map, and not in the
  -- chain of its side: the chain from the best level on is what it was.
  pub insert_price_level-behind :
      (b : ℕ) (ds : List ℕ)
      → cs ≡ b ∷ ds
      → Fresh b ds
      → goes_behind (is_buy side) price (levels w b).price_level ≡ true
      → let a = w.book.price_level_pool.next_free in
        (next : Ptr) × (w' : World) × (insert_price_level price side index w ≡ ok (some a, w'))
        × (best_of (is_buy side) w'.book ≡ best_of (is_buy side) w.book)
        × LevelChain (levels w') (best_of (is_buy side) w'.book) cs
        × Fresh a cs
        × Inserted w price side index a next w'
  insert_price_level-behind b ds e fresh behind =
      let bk = w.book in
      let a = bk.price_level_pool.next_free in
      let best = best_of (is_buy side) bk in
      let rest = not_before (levels w) (is_buy side) price ds in
      let next = head_ptr rest in
      let (p', got, t) =
        get_object-Taken bk.price_level_pool (make_price_level side price next) valid room in
      let map' = update bk.price_levels index (some a) in
      let b1 : OrderBook = record bk { price_level_pool = p'; price_levels = map' } in
      let w' = with_book w b1 in
      let skip : not_before (levels w) (is_buy side) price cs ≡ rest =
        ap (not_before (levels w) (is_buy side) price) e
        ∙ ap (λ (q : Bool). if q then rest else b ∷ ds) behind in
      let found =
        (find_next_level-not_before (suc bk.price_level_pool.size) (levels w) (is_buy side) price
          best cs chain (omega arith)).0
        ∙ ap (λ (k : List ℕ). ok (head_ptr k)) skip in
      let out = Fresh-of_free bk.price_level_pool a cs t.was_free in_use in
      let head = chain_head (levels w) best cs chain ∙ ap head_ptr e in
      (
        next,
        w',
        insert_price_level-inserted price side index a w next p' found got
            ∙ ap
                (λ (q : Bool).
                  ok (some a, if q then with_book w' (with_best (is_buy side) b1 (some a)) else w'))
                (ap (ptr_eq next) head
                  ∙ head-not_before_ne (levels w) (is_buy side) price b ds fresh),
        best_of_pool (is_buy side) bk p' map',
        subst (λ (q : Ptr). LevelChain (objects p') q cs)
            (sym (best_of_pool (is_buy side) bk p' map'))
            (LevelChain-of_same (levels w) (objects p') best cs
              (same_objects bk.price_level_pool p' a (make_price_level side price next) cs t out)
              chain),
        out,
        record {
          was_free = t.was_free;
          in_map = update_self bk.price_levels index (some a);
          level = ap ObjectBlock.object t.holds;
        },
      )
