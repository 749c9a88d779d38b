-- ===== src/OrderBook/Pools.antt =====
-- cppexchange/orderbook.h: which blocks of the two pools are handed out, whatever they hold.
use cpp_exchange.Prelude.{
  ℕ, zero, suc, ◌+◌, ◌≤◌, ◌<◌, ◌≡◌, refl, sym, ap, ◌∙◌, arith, true, false, update, subst, Bool,
  List, [], ◌∷◌, All, Fresh, Distinct, length, update_ne,
}
use cpp_exchange.ObjectPool.{ObjectPool, ObjectBlock}
use cpp_exchange.ObjectPool.Blocks.{bit, free_below, free_below-update}
use cpp_exchange.ObjectPool.Laws.{IsValid, free_count, Taken}
use cpp_exchange.OrderBook.State.{World, objects, with_objects, orders, levels}

free_below-objects :
    {T : Type 0} (p : ObjectPool T) (f : ℕ → T) (n : ℕ)
    → free_below (with_objects p f).store n ≡ free_below p.store n
free_below-objects p f zero = refl
free_below-objects p f (suc n) =
    ap (λ (k : ℕ). bit (p.store n).available + k) (free_below-objects p f n)

-- From `w` to `w'` the order pool has changed in what its blocks hold only, and no block of the
-- level pool has been handed out.
pub record Pools (w w' : World) : Type 0 where
  pub order_pool_same : w'.book.order_pool ≡ with_objects w.book.order_pool (orders w')
  pub level_valid : IsValid w.book.price_level_pool → IsValid w'.book.price_level_pool
  pub level_room : free_count w.book.price_level_pool ≤ free_count w'.book.price_level_pool

pub Pools-same :
    (w w' : World)
    → w'.book.order_pool ≡ with_objects w.book.order_pool (orders w')
    → w'.book.price_level_pool ≡ with_objects w.book.price_level_pool (levels w')
    → Pools w w'
Pools-same w w' o l = record {
  order_pool_same = o;
  level_valid = λ v.
      subst IsValid (sym l) (record { next_in = v.next_in; next_available = v.next_available });
  level_room = omega (
    arith,
    ap free_count l,
    free_below-objects w.book.price_level_pool (levels w') w.book.price_level_pool.size,
  );
}

pub Pools-trans : (w w1 w2 : World) → Pools w w1 → Pools w1 w2 → Pools w w2
Pools-trans w w1 w2 p q = record {
  order_pool_same = q.order_pool_same ∙ ap (λ r. with_objects r (orders w2)) p.order_pool_same;
  level_valid = λ v. q.level_valid (p.level_valid v);
  level_room = (let a = p.level_room in let b = q.level_room in omega arith);
}

pub orders-IsValid :
    (w w' : World) → Pools w w' → IsValid w.book.order_pool → IsValid w'.book.order_pool
orders-IsValid w w' p v =
    subst IsValid (sym p.order_pool_same)
      (record { next_in = v.next_in; next_available = v.next_available })

pub orders_room :
    (w w' : World) → Pools w w' → free_count w'.book.order_pool ≡ free_count w.book.order_pool
orders_room w w' p =
    ap free_count p.order_pool_same
    ∙ free_below-objects w.book.order_pool (orders w') w.book.order_pool.size

pub order_block_same :
    (w w' : World)
    → Pools w w'
    → (b : ℕ) → (w'.book.order_pool.store b).available ≡ (w.book.order_pool.store b).available
order_block_same w w' p b = ap (λ q. (q.store b).available) p.order_pool_same

bit_le : (b : Bool) → bit b ≤ 1
bit_le b = ground arith

-- A block of the level pool is given back.
pub freed-IsValid :
    {T : Type 0} (p : ObjectPool T) (a : ℕ) (v : T)
    → IsValid p
    → IsValid (record p { store = update p.store a (record { object = v; available = true }) })
freed-IsValid p a v valid = record { next_in = valid.next_in; next_available = ground arith }

pub freed-room :
    {T : Type 0} (p : ObjectPool T) (a : ℕ) (v : T)
    → a < p.size
    → free_count p
      ≤ free_count (record p { store = update p.store a (record { object = v; available = true }) })
freed-room p a v below = omega (
  arith,
  free_below-update p.store p.size a (record { object = v; available = true }) below,
  bit_le (p.store a).available,
)

-- The blocks `cs` of the pool are handed out.
abbrev pub InUse : {T : Type 0} → ObjectPool T → List ℕ → Type 0
InUse p cs = All (λ (a : ℕ). (p.store a).available ≡ false) cs

pub Fresh-of_free :
    {T : Type 0} (p : ObjectPool T) (x : ℕ) (cs : List ℕ)
    → (p.store x).available ≡ true
    → InUse p cs
    → Fresh x cs
Fresh-of_free p x [] free used = tt
Fresh-of_free p x (a ∷ cs) free used =
    (λ e. cc (ap (λ (k : ℕ). (p.store k).available) e), Fresh-of_free p x cs free used.1)

pub same_objects :
    {T : Type 0} (p p' : ObjectPool T) (x : ℕ) (v : T) (cs : List ℕ)
    → Taken p v x p'
    → Fresh x cs
    → All (λ (a : ℕ). objects p' a ≡ objects p a) cs
same_objects p p' x v [] t f = tt
same_objects p p' x v (a ∷ cs) t f =
    (ap ObjectBlock.object (t.others a (λ e. f.0 (sym e))), same_objects p p' x v cs t f.1)

free_below-le : {T : Type 0} (store : ℕ → ObjectBlock T) (n : ℕ) → free_below store n ≤ n
free_below-le store zero = omega arith
free_below-le store (suc n) = omega (arith, free_below-le store n, bit_le (store n).available)

still_in_use :
    {T : Type 0} (store : ℕ → ObjectBlock T) (a : ℕ) (b : ObjectBlock T) (l : List ℕ)
    → Fresh a l
    → All (λ c. (store c).available ≡ false) l
    → All (λ c. (update store a b c).available ≡ false) l
still_in_use store a b [] f u = tt
still_in_use store a b (c ∷ l) f u = (
  ap ObjectBlock.available (update_ne store a c b (λ e. f.0 (sym e))) ∙ u.0,
  still_in_use store a b l f.1 u.1,
)

-- Distinct blocks that are handed out, with those that are available, are no more than there are.
pub length-InUse :
    {T : Type 0} (store : ℕ → ObjectBlock T) (n : ℕ) (l : List ℕ)
    → Distinct l
    → All (λ a. a < n) l
    → All (λ a. (store a).available ≡ false) l
    → length l + free_below store n ≤ n
length-InUse store n [] d b u = omega (arith, free_below-le store n)
length-InUse {T} store n (a ∷ l) d b u =
    let freed : ObjectBlock T = record (store a) { available = true } in
    omega (
      arith,
      free_below-update store n a freed b.0,
      ap bit u.0,
      length-InUse (update store a freed) n l d.1 b.1 (still_in_use store a freed l d.0 u.1),
    )
