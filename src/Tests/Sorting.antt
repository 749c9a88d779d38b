-- ===== src/Tests/Sorting.antt =====
-- A sort for the sequencer's parameter, and what std::sort promises, proved of it.
use mathlib.Core.List.Perm
use mathlib.Core.List.{Perm}
use cpp_exchange.Prelude.{List, [], ◌∷◌, All, Bool-cases, inl, inr, false, ◌≡◌, if◌then◌else◌}
use cpp_exchange.FifoSequencer.{ReceiveTimeClientRequest}
use cpp_exchange.FifoSequencer.Publish.{Comparison, IsStrictWeakOrder, InOrder, Sorts}

abbrev Entry : Type 0
Entry = ReceiveTimeClientRequest

unfoldable pub insert : Comparison → Entry → List Entry → List Entry
insert less x [] = x ∷ []
insert less x (y ∷ ys) = if less y x then y ∷ insert less x ys else x ∷ y ∷ ys

unfoldable pub sort : Comparison → List Entry → List Entry
unfolding insert
sort less [] = []
sort less (x ∷ xs) = insert less x (sort less xs)

module _ (less : Comparison) where
  insert-perm : (x : Entry) (l : List Entry) → Perm (insert less x l) (x ∷ l)
  unfolding insert
  insert-perm x [] = Perm.refl (x ∷ [])
  insert-perm x (y ∷ ys) = elim (Bool-cases (less y x)) [
    | inl behind ↦ rw behind (Perm.trans (Perm.cons y (insert-perm x ys)) (Perm.swap x y ys))
    | inr before ↦ rw before (Perm.refl (x ∷ y ∷ ys))
  ]

  sort-perm : (l : List Entry) → Perm (sort less l) l
  unfolding sort
  sort-perm [] = Perm.refl []
  sort-perm (x ∷ xs) = Perm.trans (insert-perm x (sort less xs)) (Perm.cons x (sort-perm xs))

  -- No entry of the list is less than `x`.
  abbrev NotBelow : Entry → List Entry → Type 0
  NotBelow x l = All (λ (y : Entry). less y x ≡ false) l

  module _ (order : IsStrictWeakOrder less) where
    NotBelow-before :
        (x y : Entry) (l : List Entry) → less y x ≡ false → NotBelow y l → NotBelow x l
    NotBelow-before x y [] h b = tt
    NotBelow-before x y (z ∷ l) h b = (order.incomparable z y x b.0 h, NotBelow-before x y l h b.1)

    NotBelow-insert :
        (y x : Entry) (l : List Entry)
        → less x y ≡ false
        → NotBelow y l
        → NotBelow y (insert less x l)
    unfolding insert
    NotBelow-insert y x [] h b = (h, tt)
    NotBelow-insert y x (z ∷ l) h b = elim (Bool-cases (less z x)) [
      | inl behind ↦ rw behind (b.0, NotBelow-insert y x l h b.1)
      | inr before ↦ rw before (h, (b.0, b.1))
    ]

    insert-InOrder : (x : Entry) (l : List Entry) → InOrder less l → InOrder less (insert less x l)
    unfolding insert
    insert-InOrder x [] a = (tt, tt)
    insert-InOrder x (y ∷ ys) a = elim (Bool-cases (less y x)) [
      | inl behind ↦
          rw behind
            (NotBelow-insert y x ys (order.asymmetric y x behind) a.0, insert-InOrder x ys a.1)
      | inr before ↦ rw before ((before, NotBelow-before x y ys before a.0), a)
    ]

    sort-InOrder : (l : List Entry) → InOrder less (sort less l)
    unfolding sort
    sort-InOrder [] = tt
    sort-InOrder (x ∷ xs) = insert-InOrder x (sort less xs) (sort-InOrder xs)

pub sort-Sorts : Sorts sort
sort-Sorts = record {
  perm = λ less order l. sort-perm less l;
  in_order = λ less order l. sort-InOrder less order l;
}
