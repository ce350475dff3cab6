-- ===== src/Txpool/Heap.antt =====
-- Heaps keep their transactions.
use raft_project.Common.{
  ℕ, zero, suc, ◌+◌, ◌-◌, ◌/◌, ◌≡◌, refl, ◌⊎◌, inl, inr, Bool, some, List, [], ◌∷◌, ◌++◌, arith,
}
use raft_project.Common.Tests.{if◌then◌else◌, Option-cases}
use raft_project.Common.Lists.{
  count, length, take, get_elem?, length-append, length-take, get_elem?-in_range,
}
use raft_project.Common.Outcome.{ok}
use raft_project.Transaction.{Transaction}
use raft_project.Txpool.{set_at, swap, up, down, smaller_child, heap_push, heap_pop}

module _ {ℓ} {A : Type ℓ} (f : A → Bool) where
  abbrev one : A → ℕ
  one x = if f x then 1 else 0

  count-append : (xs ys : List A) → count f (xs ++ ys) ≡ count f xs + count f ys
  count-append [] ys = omega arith
  count-append (x ∷ xs) ys = omega (arith, count-append xs ys)

  length-set_at : (i : ℕ) (v : A) (xs : List A) → length (set_at i v xs) ≡ length xs
  unfolding set_at
  length-set_at i v [] = refl
  length-set_at zero v (x ∷ xs) = refl
  length-set_at (suc i) v (x ∷ xs) = omega (arith, length-set_at i v xs)

  -- Setting an element takes the old one away.
  count-set_at :
      (i : ℕ) (v a : A) (xs : List A)
      → get_elem? xs i ≡ some a
      → count f (set_at i v xs) + one a ≡ count f xs + one v
  unfolding set_at
  count-set_at i v a [] e = cc
  count-set_at zero v a (x ∷ xs) e = let same : x ≡ a = cc in rw same (omega arith)
  count-set_at (suc i) v a (x ∷ xs) e = omega (arith, count-set_at i v a xs e)

  get_elem?-set_at_same :
      (i j : ℕ) (a : A) (xs : List A)
      → get_elem? xs i ≡ some a
      → get_elem? (set_at j a xs) i ≡ some a
  unfolding set_at
  get_elem?-set_at_same i j a [] e = cc
  get_elem?-set_at_same zero zero a (x ∷ xs) e = refl
  get_elem?-set_at_same zero (suc j) a (x ∷ xs) e = e
  get_elem?-set_at_same (suc i) zero a (x ∷ xs) e = e
  get_elem?-set_at_same (suc i) (suc j) a (x ∷ xs) e = get_elem?-set_at_same i j a xs e

  swap-cases :
      (i j : ℕ) (xs : List A)
      → (swap i j xs ≡ xs)
        ⊎ ((a c : A) × (get_elem? xs i ≡ some a)
            × (get_elem? xs j ≡ some c)
            × (swap i j xs ≡ set_at i c (set_at j a xs)))
  unfolding swap
  swap-cases i j xs = elim (Option-cases (get_elem? xs i)) [
    | inl off ↦ inl (rw (off, swap) refl)
    | inr (a, at_i) ↦ elim (Option-cases (get_elem? xs j)) [
      | inl off ↦ inl (rw (at_i, off, swap) refl)
      | inr (c, at_j) ↦ inr (a, c, at_i, at_j, rw (at_i, at_j, swap) refl)
    ]
  ]

  length-swap : (i j : ℕ) (xs : List A) → length (swap i j xs) ≡ length xs
  length-swap i j xs = elim (swap-cases i j xs) [
    | inl off ↦ rw off refl
    | inr (a, c, at_i, at_j, e) ↦
        rw e (omega (arith, length-set_at i c (set_at j a xs), length-set_at j a xs))
  ]

  count-swap : (i j : ℕ) (xs : List A) → count f (swap i j xs) ≡ count f xs
  count-swap i j xs = elim (swap-cases i j xs) [
    | inl off ↦ rw off refl
    | inr (a, c, at_i, at_j, e) ↦ rw e (
        omega (
          arith,
          count-set_at i c a (set_at j a xs) (get_elem?-set_at_same i j a xs at_i),
          count-set_at j a c xs at_j,
        ))
  ]

module _ (f : Transaction → Bool) where
  length-up : (fuel j : ℕ) (xs : List Transaction) → length (up fuel j xs) ≡ length xs
  unfolding up
  length-up zero j xs = refl
  length-up (suc fuel) j xs = ground (
    arith,
    length-up fuel ((j - 1) / 2) (swap ((j - 1) / 2) j xs),
    length-swap f ((j - 1) / 2) j xs,
  )

  count-up : (fuel j : ℕ) (xs : List Transaction) → count f (up fuel j xs) ≡ count f xs
  unfolding up
  count-up zero j xs = refl
  count-up (suc fuel) j xs = ground (
    arith,
    count-up fuel ((j - 1) / 2) (swap ((j - 1) / 2) j xs),
    count-swap f ((j - 1) / 2) j xs,
  )

  length-down : (fuel i n : ℕ) (xs : List Transaction) → length (down fuel i n xs) ≡ length xs
  unfolding down
  length-down zero i n xs = refl
  length-down (suc fuel) i n xs =
      let j = smaller_child i n xs in
      ground (arith, length-down fuel j n (swap i j xs), length-swap f i j xs)

  count-down : (fuel i n : ℕ) (xs : List Transaction) → count f (down fuel i n xs) ≡ count f xs
  unfolding down
  count-down zero i n xs = refl
  count-down (suc fuel) i n xs =
      let j = smaller_child i n xs in
      ground (arith, count-down fuel j n (swap i j xs), count-swap f i j xs)

  count-split :
      (n : ℕ) (xs : List Transaction) (tx : Transaction)
      → length xs ≡ suc n
      → get_elem? xs n ≡ some tx
      → count f (take n xs) + (if f tx then 1 else 0) ≡ count f xs
  count-split n [] tx size e = absurd (omega arith)
  count-split zero (x ∷ []) tx size e = let same : x ≡ tx = cc in rw same (omega arith)
  count-split zero (x ∷ y ∷ xs) tx size e = absurd (omega arith)
  count-split (suc n) (x ∷ xs) tx size e = omega (arith, count-split n xs tx (omega arith) e)

  heap_pop_at :
      (u t : Transaction) (us : List Transaction)
      → get_elem? (down (suc (length us)) 0 (length us) (swap 0 (length us) (u ∷ us))) (length us)
        ≡ some t
      → heap_pop (u ∷ us)
        ≡ ok (
          t,
          take (length us) (down (suc (length us)) 0 (length us) (swap 0 (length us) (u ∷ us))),
        )
  unfolding heap_pop down
  heap_pop_at u t us at_n =
      let last : suc (length us) - 1 ≡ length us = omega arith in rw (heap_pop, last, at_n) refl

  -- Pushing onto a heap adds the transaction, and popping from a heap that is not empty takes out
  -- one: for every kind of transactions, their number is changed by just this one.
  pub heap_lem :
      (tx u : Transaction) (us : List Transaction)
      → (count f (heap_push tx us) ≡ (if f tx then 1 else 0) + count f us)
        × (length (heap_push tx us) ≡ suc (length us))
        × (t : Transaction) × (rest : List Transaction) × (heap_pop (u ∷ us) ≡ ok (t, rest))
        × (count f rest + (if f t then 1 else 0) ≡ count f (u ∷ us))
        × (length rest ≡ length us)
  unfolding heap_push
  heap_lem tx u us =
      let n : ℕ = length us in
      let ys : List Transaction = down (suc n) 0 n (swap 0 n (u ∷ us)) in
      let size : length ys ≡ suc n =
        omega (arith, length-down (suc n) 0 n (swap 0 n (u ∷ us)), length-swap f 0 n (u ∷ us)) in
      let (t, at_n) = get_elem?-in_range ys n (omega arith) in
      (
        omega (arith, count-up (length us + 1) n (us ++ tx ∷ []), count-append f us (tx ∷ [])),
        omega (arith, length-up (length us + 1) n (us ++ tx ∷ []), length-append us (tx ∷ [])),
        t,
        take n ys,
        heap_pop_at u t us at_n,
        omega (
          arith,
          count-split n ys t size at_n,
          count-down (suc n) 0 n (swap 0 n (u ∷ us)),
          count-swap f 0 n (u ∷ us),
        ),
        length-take n ys (omega arith),
      )
