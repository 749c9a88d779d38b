-- ===== src/PriceLevel/Unlink.antt =====
-- cppexchange/order.h: the writes of `cancel` that take one order out of a ring.
use cpp_exchange.Prelude.{
  Fresh-left, Fresh-right, ℕ, ◌≡◌, ◌≢◌, refl, sym, ap, ◌∙◌, some, none, List, [], ◌∷◌, ◌++◌, arith,
  Fresh, Distinct, last, Distinct-join, Distinct-parts, ne_last, All-last, Fresh-of_Apart,
  append_assoc, subst, Apart-tail, Fresh-append,
}
use cpp_exchange.Outcome.{Outcome, ok, ◌>>=◌}
use cpp_exchange.Order.{Ptr, Orders, address, set_next, set_previous}
use cpp_exchange.PriceLevel.{PriceLevel, unlink, new_top}
use cpp_exchange.PriceLevel.Ring.{
  Chain, Ring, Chain-append, Chain-parts, Chain-set_next, Chain-set_previous, Fresh-sources,
  Fresh-sources_snoc, last-sources, detach, SamePayload, SameOutside, sources,
}

module _ (h : Orders) (b y z : ℕ) where
  -- The orders after `y` is taken out from between `b` and `z`.
  cut : Orders
  cut = set_previous (set_next (set_previous (set_next h b (some z)) z (some b)) y none) y none

  -- The orders as `cancel` finds them when it looks for the new top.
  half_cut : Orders
  half_cut = set_previous (set_next h b (some z)) z (some b)

  cut-payload : SamePayload h cut
  unfolding cut
  cut-payload k = ground arith

  cut-outside : (k : ℕ) → k ≢ b → k ≢ y → k ≢ z → cut k ≡ h k
  unfolding cut
  cut-outside k nb ny nz = ground arith

  cut-detached : cut y ≡ detach (h y)
  unfolding cut
  cut-detached = ground arith

  cut-link : b ≢ y → z ≢ y → Chain cut b (z ∷ [])
  unfolding cut
  cut-link nb nz = (ground arith, ground arith, tt)

  cut-Chain :
      (a : ℕ) (l : List ℕ)
      → Fresh b (sources a l)
      → Fresh z l
      → y ≢ a
      → Fresh y l
      → Chain h a l
      → Chain cut a l
  unfolding cut
  cut-Chain a l fb fz ny fy c =
      let h1 = set_next h b (some z) in
      let h2 = set_previous h1 z (some b) in
      let h3 = set_next h2 y none in
      Chain-set_previous h3 y none a l fy (
        Chain-set_next h2 y none a l (Fresh-sources y a l ny fy)
          (Chain-set_previous h1 z (some b) a l fz (Chain-set_next h b (some z) a l fb c)))

  -- The ring closes over the gap, if `y` and the two neighbours stand where they should.
  cut-round :
      (a : ℕ) (p r : List ℕ)
      → last a p ≡ b
      → Fresh b (sources a p) × Fresh b (sources z r)
      → Fresh z p × Fresh z r
      → Fresh y (a ∷ p) × Fresh y (z ∷ r)
      → b ≢ y
      → Chain h a p
      → Chain h z r
      → Chain cut a (p ++ z ∷ r)
  cut-round a p r e fb fz fy by cp cr =
      let link = cut-link by (λ k. fy.1.0 (sym k)) in
      Chain-append cut a p (z ∷ r) (cut-Chain a p fb.0 fz.0 fy.0.0 fy.0.1 cp) (
        subst (λ (k : ℕ). Chain cut k (z ∷ r)) (sym e)
          (link.0, link.1, cut-Chain z r fb.1 fz.1 fy.1.0 fy.1.1 cr))

  -- `unlink` at an order whose neighbours are `b` and `z`.
  unlink-cut :
      (lv : PriceLevel) (t : ℕ)
      → (h y).previous ≡ some b
      → (h y).next ≡ some z
      → unlink lv t y h ≡ ok (new_top lv t y half_cut, cut)
  unfolding unlink cut half_cut
  unlink-cut lv t back front =
      ap (λ (p : Ptr). address p >>= λ k. forward (set_next h k (h y).next)) back
      ∙ ap (λ (p : Ptr). forward (set_next h b p)) front
      ∙ ap (λ (p : Ptr). address p >>= λ k. finish (set_previous h1 k (h1 y).previous)) own_next
      ∙ ap (λ (p : Ptr). finish (set_previous h1 z p)) own_previous
    where
      finish : Orders → Outcome (PriceLevel × Orders)
      finish g = ok (new_top lv t y g, set_previous (set_next g y none) y none)

      forward : Orders → Outcome (PriceLevel × Orders)
      forward g = address (g y).next >>= λ k. finish (set_previous g k (g y).previous)

      h1 : Orders
      h1 = set_next h b (some z)

      own_next : (h1 y).next ≡ some z
      own_next = ground arith

      own_previous : (h1 y).previous ≡ some b
      own_previous = ground arith

-- What taking `y` out of the ring of `l` promises: the ring holds `rest`, `y` has no neighbours, no
-- order changes but in its pointers, none outside the level changes at all, and the level keeps its
-- price, its side and its place among the levels.
pub record Removed (lv : PriceLevel) (y : ℕ) (l rest : List ℕ) (h : Orders) (lv' : PriceLevel)
    (g : Orders) : Type 0 where
  pub ring : Ring g lv'.top_order rest
  pub detached : g y ≡ detach (h y)
  pub payload : SamePayload h g
  pub outside : SameOutside l h g
  pub price : lv'.price_level ≡ lv.price_level
  pub next_level : lv'.next_price_level ≡ lv.next_price_level
  pub side_same : lv'.side ≡ lv.side

new_top-only :
    (lv : PriceLevel) (h : Orders) (a : ℕ)
    → new_top lv a a (half_cut h a a a) ≡ record lv { top_order = none }
unfolding new_top half_cut
new_top-only lv h a = ground arith

new_top-first :
    (lv : PriceLevel) (h : Orders) (a c b : ℕ)
    → a ≢ c
    → a ≢ b
    → (h a).next ≡ some c
    → new_top lv a a (half_cut h b a c) ≡ record lv { top_order = some c }
unfolding new_top half_cut
new_top-first lv h a c b ac ab e = ground arith

new_top-inner : (lv : PriceLevel) (h : Orders) (a y : ℕ) → a ≢ y → new_top lv a y h ≡ lv
unfolding new_top
new_top-inner lv h a y ne = ground arith

module _ (lv : PriceLevel) (h : Orders) (a : ℕ) (top : lv.top_order ≡ some a) where
  -- The only order of a ring.
  pub unlink-only :
      Chain h a (a ∷ [])
      → (lv' : PriceLevel) × (g : Orders) × (unlink lv a a h ≡ ok (lv', g))
        × Removed lv a (a ∷ []) [] h lv' g
  unlink-only chain = (
    record lv { top_order = none },
    cut h a a a,
    unlink-cut h a a a lv a chain.1 chain.0
        ∙ ap (λ (l : PriceLevel). ok (l, cut h a a a)) (new_top-only lv h a),
    record {
      ring = refl;
      detached = cut-detached h a a a;
      payload = cut-payload h a a a;
      outside = λ k f. cut-outside h a a a k f.0 f.0 f.0;
      price = refl;
      next_level = refl;
      side_same = refl;
    },
  )

  -- The first order of a ring with others.
  pub unlink-first :
      (c : ℕ) (l : List ℕ)
      → Chain h a (c ∷ l ++ a ∷ [])
      → Distinct (a ∷ c ∷ l)
      → (lv' : PriceLevel) × (g : Orders) × (unlink lv a a h ≡ ok (lv', g))
        × Removed lv a (a ∷ c ∷ l) (c ∷ l) h lv' g
  unlink-first c l chain d =
      let b = last c l in
      let (front, closing) = Chain-parts h c l (a ∷ []) chain.2 in
      let ca : c ≢ a = λ e. d.0.0 (sym e) in
      let ba : b ≢ a = λ e. ne_last a c l d.0.0 d.0.1 (sym e) in
      let front' = cut-Chain h b a c c l (last-sources c l d.1) d.1.0 d.0.0 d.0.1 front in
      (
        record lv { top_order = some c },
        cut h b a c,
        unlink-cut h b a c lv a closing.1 chain.0
            ∙ ap (λ (k : PriceLevel). ok (k, cut h b a c))
                (new_top-first lv h a c b d.0.0 (λ e. ba (sym e)) chain.0),
        record {
          ring =
              (refl, Chain-append (cut h b a c) c l (c ∷ []) front' (cut-link h b a c ba ca), d.1);
          detached = cut-detached h b a c;
          payload = cut-payload h b a c;
          outside = λ k f. cut-outside h b a c k (ne_last k c l f.1.0 f.1.1) f.0 f.1.0;
          price = refl;
          next_level = refl;
          side_same = refl;
        },
      )

  -- An order behind the first, with `p` between the two: what is left to show is that the ring
  -- closes over the gap.
  unlink-inner :
      (y z : ℕ) (p q r : List ℕ)
      → q ++ a ∷ [] ≡ z ∷ r
      → Distinct (a ∷ p ++ y ∷ q)
      → Chain h y (z ∷ r)
      → (h y).previous ≡ some (last a p)
      → Chain (cut h (last a p) y z) a (p ++ z ∷ r)
      → ((k : ℕ) → Fresh k (a ∷ p ++ y ∷ q) → k ≢ z)
      → (lv' : PriceLevel) × (g : Orders) × (unlink lv a y h ≡ ok (lv', g))
        × Removed lv y (a ∷ p ++ y ∷ q) (a ∷ p ++ q) h lv' g
  unlink-inner y z p q r split d chain back round out =
      let b = last a p in
      let (dp, apart, dq) = Distinct-parts (a ∷ p) (y ∷ q) d in
      let fy = Fresh-of_Apart y (a ∷ p) q apart in
      (
        lv,
        cut h b y z,
        unlink-cut h b y z lv a back chain.0
            ∙ ap (λ (k : PriceLevel). ok (k, cut h b y z))
                (new_top-inner lv (half_cut h b y z) a y (λ e. fy.0 (sym e))),
        record {
          ring = (
            top,
            subst (Chain (cut h b y z) a)
                (ap (λ (k : List ℕ). p ++ k) (sym split) ∙ sym (append_assoc p q (a ∷ []))) round,
            Distinct-join (a ∷ p) q dp (Apart-tail y (a ∷ p) q apart) dq.1,
          );
          detached = cut-detached h b y z;
          payload = cut-payload h b y z;
          outside = λ k f.
              cut-outside h b y z k (ne_last k a p f.0 (Fresh-left k p (y ∷ q) f.1))
                (Fresh-right k p (y ∷ q) f.1).0 (out k f);
          price = refl;
          next_level = refl;
          side_same = refl;
        },
      )

  -- An order behind the first: `p` stands between the two, `q` behind.
  pub unlink-behind :
      (y : ℕ) (p q : List ℕ)
      → Chain h a ((p ++ y ∷ q) ++ a ∷ [])
      → Distinct (a ∷ p ++ y ∷ q)
      → (lv' : PriceLevel) × (g : Orders) × (unlink lv a y h ≡ ok (lv', g))
        × Removed lv y (a ∷ p ++ y ∷ q) (a ∷ p ++ q) h lv' g
  unlink-behind y p [] chain d =
      let (dp, apart, dq) = Distinct-parts (a ∷ p) (y ∷ []) d in
      let fy = Fresh-of_Apart y (a ∷ p) [] apart in
      let b = last a p in
      let (front, back) = Chain-parts h a p (y ∷ a ∷ []) (rw append_assoc at chain) in
      unlink-inner y a p [] [] refl d back.2 back.1
        (cut-round h b y a a p [] refl (last-sources a p dp, tt) (dp.0, tt) (fy, (fy.0, tt))
          (λ e. ne_last y a p fy.0 fy.1 (sym e)) front tt)
        (λ k f. f.0)
  unlink-behind y p (z ∷ q) chain d =
      let (dp, apart, dq) = Distinct-parts (a ∷ p) (y ∷ z ∷ q) d in
      let fy = Fresh-of_Apart y (a ∷ p) (z ∷ q) apart in
      let fz = Fresh-of_Apart z (a ∷ p) q (Apart-tail y (a ∷ p) (z ∷ q) apart) in
      let b = last a p in
      let fb = All-last (λ (k : ℕ). Fresh k (y ∷ z ∷ q)) a p apart.0 apart.1 in
      let (front, back) = Chain-parts h a p (y ∷ z ∷ q ++ a ∷ []) (rw append_assoc at chain) in
      unlink-inner y z p (z ∷ q) (q ++ a ∷ []) refl d back.2 back.1
        (cut-round h b y z a p (q ++ a ∷ []) refl
          (last-sources a p dp, Fresh-sources_snoc b z a q fb.1.0 fb.1.1)
          (fz.1, Fresh-append z q (a ∷ []) dq.1.0 (fz.0, tt))
          (fy, (dq.0.0, Fresh-append y q (a ∷ []) dq.0.1 (fy.0, tt))) fb.0 front back.2.2)
        (λ k f. (Fresh-right k p (y ∷ z ∷ q) f.1).1.0)
