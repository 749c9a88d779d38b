-- ===== src/PriceLevel/Add.antt =====
-- cppexchange/order.h: `add` puts an order last in its level's ring.
use cpp_exchange.Prelude.{
  Distinct-snoc, subst, ℕ, ◌≡◌, ◌≢◌, refl, sym, ap, ◌∙◌, some, List, [], ◌∷◌, ◌++◌, arith, Fresh,
  Distinct, last, ne_last, append_assoc, ◌⊎◌, inl, inr,
}
use cpp_exchange.Outcome.{ok, ◌>>=◌}
use cpp_exchange.Order.{Ptr, Orders, address, set_next, set_previous}
use cpp_exchange.PriceLevel.{PriceLevel, add, add_behind}
use cpp_exchange.PriceLevel.Ring.{
  Chain, Ring, Chain-append, Chain-parts, Chain-set_next, Chain-set_previous, Fresh-sources,
  last-sources, SamePayload, SameOutside, sources,
}

module _ (h : Orders) (x a z : ℕ) where
  -- The orders after `x` is put between the last, `z`, and the first, `a`.
  linked : Orders
  linked =
      set_previous (set_next (set_previous (set_next h x (some a)) x (some z)) z (some x)) a
        (some x)

  add_behind-linked :
      (lv : PriceLevel)
      → x ≢ a
      → (h a).previous ≡ some z
      → add_behind (some a) lv x h ≡ ok (lv, linked)
  unfolding add_behind linked
  add_behind-linked lv ne back =
      ap
        (λ (p : Ptr). address (set_previous h1 x p x).previous >>= λ q.
          ok (lv, set_previous (set_next (set_previous h1 x p) q (some x)) a (some x)))
        first_back
      ∙ ap
          (λ (p : Ptr). address p >>= λ q.
            ok (lv, set_previous (set_next (set_previous h1 x (some z)) q (some x)) a (some x)))
          own_back
    where
      h1 : Orders
      h1 = set_next h x (some a)

      first_back : (h1 a).previous ≡ some z
      first_back = ground arith

      own_back : (set_previous h1 x (some z) x).previous ≡ some z
      own_back = ground arith

  linked-payload : SamePayload h linked
  unfolding linked
  linked-payload b = ground arith

  linked-outside : (b : ℕ) → b ≢ x → b ≢ a → b ≢ z → linked b ≡ h b
  unfolding linked
  linked-outside b nx na nz = ground arith

  linked-Chain :
      (l : List ℕ)
      → last a l ≡ z
      → Fresh x (a ∷ l)
      → Distinct (a ∷ l)
      → Chain h a l
      → Chain linked a l
  unfolding linked
  linked-Chain l lz fx d c =
      let outside : Fresh x (sources a l) = Fresh-sources x a l fx.0 fx.1 in
      let end : Fresh z (sources a l) =
        subst (λ (k : ℕ). Fresh k (sources a l)) lz (last-sources a l d) in
      let c1 = Chain-set_next h x (some a) a l outside c in
      let h1 = set_next h x (some a) in
      let c2 = Chain-set_previous h1 x (some z) a l fx.1 c1 in
      let h2 = set_previous h1 x (some z) in
      let c3 = Chain-set_next h2 z (some x) a l end c2 in
      Chain-set_previous (set_next h2 z (some x)) a (some x) a l d.0 c3

  linked-closed : x ≢ a → x ≢ z → Chain linked z (x ∷ a ∷ [])
  unfolding linked
  linked-closed na nz = (ground arith, ground arith, (ground arith, ground arith, tt))

-- What `add` promises for the order `x` at the level `lv` that holds `l`: it returns, `x` is last
-- in time order, no order changes but in its pointers, none outside the level changes at all, and
-- the level keeps its price and its place among the levels. Its side stays, or is that of `x`.
pub record Added (lv : PriceLevel) (x : ℕ) (l : List ℕ) (h : Orders) (lv' : PriceLevel) (g : Orders)
    : Type 0 where
  pub ring : Ring g lv'.top_order (l ++ x ∷ [])
  pub payload : SamePayload h g
  pub outside : SameOutside (x ∷ l) h g
  pub price : lv'.price_level ≡ lv.price_level
  pub next_level : lv'.next_price_level ≡ lv.next_price_level
  pub side_kept : (lv'.side ≡ lv.side) ⊎ (lv'.side ≡ (h x).side)

-- To a level that holds the orders `l`, `add` of another order succeeds and puts it behind them.
pub add-Added :
    (lv : PriceLevel) (x : ℕ) (l : List ℕ) (h : Orders)
    → Ring h lv.top_order l
    → Fresh x l
    → (lv' : PriceLevel) × (g : Orders) × (add lv x h ≡ ok (lv', g)) × Added lv x l h lv' g
unfolding add
add-Added lv x [] h r f =
    let g = set_previous (set_next h x (some x)) x (some x) in
    (
      record lv { top_order = some x; side = (h x).side },
      g,
      ap (λ (p : Ptr). add_behind p lv x h) r,
      record {
        ring = (refl, (ground arith, ground arith, tt), (tt, tt));
        payload = λ b. ground arith;
        outside = λ b ne. ground arith;
        price = refl;
        next_level = refl;
        side_kept = inr refl;
      },
    )
add-Added lv x (a ∷ l) h (top, chain, d) f =
    let z = last a l in
    let (front, closing) = Chain-parts h a l (a ∷ []) chain in
    let nz : x ≢ z = ne_last x a l f.0 f.1 in
    let round : Chain (linked h x a z) a (l ++ x ∷ a ∷ []) =
      Chain-append (linked h x a z) a l (x ∷ a ∷ []) (linked-Chain h x a z l refl f d front)
        (linked-closed h x a z f.0 nz) in
    (
      lv,
      linked h x a z,
      ap (λ (p : Ptr). add_behind p lv x h) top ∙ add_behind-linked h x a z lv f.0 closing.1,
      record {
        ring = (
          top,
          subst (Chain (linked h x a z) a) (sym (append_assoc l (x ∷ []) (a ∷ []))) round,
          Distinct-snoc x (a ∷ l) f d,
        );
        payload = linked-payload h x a z;
        outside = λ b out. linked-outside h x a z b out.0 out.1.0 (ne_last b a l out.1.0 out.1.1);
        price = refl;
        next_level = refl;
        side_kept = inl refl;
      },
    )
