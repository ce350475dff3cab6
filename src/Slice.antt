-- ===== src/Slice.antt =====
-- The list functions of until/slice/slice.go, over the interface of until/typeclass/ord.go.
pub mod Search
pub mod Order
use raft_project.Common.{
  ℕ, zero, suc, ◌+◌, ◌-◌, ◌/◌, Bool, true, false, not, Option, none, some, List, [], ◌∷◌, ◌++◌,
}
use raft_project.Common.Tests.{ltb, if◌then◌else◌}
use raft_project.Common.Lists.{length, get_elem?}

-- The comparisons that the list functions call.
pub record Ord (A : Type 0) : Type 0 where
  pub eq : A → A → Bool
  pub lt : A → A → Bool
  pub ge : A → A → Bool

module _ {A : Type 0} where
  unfoldable pub filter : (A → Bool) → List A → List A
  filter f [] = []
  filter f (x ∷ xs) = let rest = filter f xs in if f x then x ∷ rest else rest

  -- `Map`, `Foldl`, `Foldr` and `FoldWhile`, whose function makes the next accumulator too.
  unfoldable pub map_list : {B : Type 0} → (A → B) → List A → List B
  map_list f [] = []
  map_list f (x ∷ xs) = f x ∷ map_list f xs

  unfoldable pub foldl : {X : Type 0} → (A → X → X) → X → List A → X
  foldl f x [] = x
  foldl f x (y ∷ ys) = foldl f (f y x) ys

  unfoldable pub foldr : {X : Type 0} → (A → X → X) → X → List A → X
  foldr f x [] = x
  foldr f x (y ∷ ys) = f y (foldr f x ys)

  unfoldable pub fold_while : {X : Type 0} → (Bool → X) → (A → X → Bool) → X → List A → X
  fold_while wrap f x [] = x
  fold_while wrap f x (y ∷ ys) =
      let rest = fold_while wrap f (wrap (f y x)) ys in if f y x then rest else x

  unfoldable pub delete_by : (A → Bool) → List A → List A
  delete_by f [] = []
  delete_by f (x ∷ xs) = let rest = delete_by f xs in if f x then xs else x ∷ rest

module _ {A : Type 0} (o : Ord A) where
  open o use {eq, lt, ge}

  -- `Nub`; every round takes an element away, so the length is fuel enough.
  unfoldable pub nub_rounds : ℕ → List A → List A
  nub_rounds zero xs = []
  nub_rounds (suc fuel) [] = []
  nub_rounds (suc fuel) (x ∷ xs) = x ∷ nub_rounds fuel (filter (λ y. not (eq y x)) xs)

  unfoldable pub nub : List A → List A
  unfolding nub_rounds
  nub xs = nub_rounds (length xs) xs

  -- `Elem`, with nil as `none`.
  unfoldable pub elem_of : A → List A → Option A
  elem_of x [] = none
  elem_of x (y ∷ ys) = let rest = elem_of x ys in if eq y x then some y else rest

  -- `ElemIndex` from index `i` on, with -1 as `none`.
  unfoldable pub elem_index : A → ℕ → List A → Option ℕ
  elem_index x i [] = none
  elem_index x i (y ∷ ys) = let rest = elem_index x (suc i) ys in if eq y x then some i else rest

  unfoldable pub delete : A → List A → List A
  delete x [] = []
  delete x (y ∷ ys) = let rest = delete x ys in if eq y x then ys else y ∷ rest

  -- The loop of `Bsearch`, with `stop` one more than its `end`, which may be -1; -1 is `none`. Every
  -- round makes the range smaller, so its length is fuel enough. The element at `mid` is in range.
  unfoldable pub bsearch_rounds : ℕ → A → List A → ℕ → ℕ → Option ℕ
  bsearch_rounds zero x xs start stop = none
  bsearch_rounds (suc fuel) x xs start stop =
      let mid = start + (stop - 1 - start) / 2 in
      let above = bsearch_rounds fuel x xs (mid + 1) stop in
      let below = bsearch_rounds fuel x xs start mid in
      if ltb start stop
      then elim (get_elem? xs mid) [
        | none ↦ none
        | some y ↦ if eq y x then some mid else if lt y x then above else below
      ]
      else none

  unfoldable pub bsearch : A → List A → Option ℕ
  unfolding bsearch_rounds
  bsearch x xs = bsearch_rounds (length xs) x xs 0 (length xs)

  unfoldable pub push : A → List A → List A
  push x [] = x ∷ []
  push x (y ∷ ys) = let rest = push x ys in if ge y x then x ∷ y ∷ ys else y ∷ rest
