-- ===== src/Slice/Order.antt =====
-- Lists without repetitions, and lists kept in order.
use mathlib.Core.Path.{subst}
use raft_project.Common.{
  ℕ, zero, suc, ◌≤◌, ◌≡◌, refl, ◌⊎◌, inl, inr, Bool, true, false, not, List, [], ◌∷◌, arith,
}
use raft_project.Common.Tests.{if◌then◌else◌, Bool-cases}
use raft_project.Common.Lists.{length, All}
use raft_project.Slice.{Ord, filter, nub_rounds, nub, push}

-- Some element of the list passes the test.
abbrev pub Some : {A : Type 0} → (A → Bool) → List A → Type 0
Some f [] = ⊥
Some f (x ∷ xs) = (f x ≡ true) ⊎ Some f xs

module _ {A : Type 0} where
  length-filter : (f : A → Bool) (xs : List A) → length (filter f xs) ≤ length xs
  unfolding filter
  length-filter f [] = omega arith
  length-filter f (x ∷ xs) = ground (arith, length-filter f xs)

  All-filter : (P : A → Type 0) (f : A → Bool) (xs : List A) → All P xs → All P (filter f xs)
  unfolding filter
  All-filter P f [] h = tt
  All-filter P f (x ∷ xs) h = elim (Bool-cases (f x)) [
    | inl keeps ↦ rw keeps (h.0, All-filter P f xs h.1)
    | inr drops ↦ rw drops (All-filter P f xs h.1)
  ]

  filter-passes : (f : A → Bool) (xs : List A) → All (λ x. f x ≡ true) (filter f xs)
  unfolding filter
  filter-passes f [] = tt
  filter-passes f (x ∷ xs) = elim (Bool-cases (f x)) [
    | inl keeps ↦ rw keeps (keeps, filter-passes f xs)
    | inr drops ↦ rw drops (filter-passes f xs)
  ]

module _ {A : Type 0} (o : Ord A) where
  open o use {eq, lt, ge}

  -- No later element is equal to an earlier one.
  abbrev pub IsDistinct : List A → Type 0
  IsDistinct [] = Unit
  IsDistinct (x ∷ xs) = All (λ y. eq y x ≡ false) xs × IsDistinct xs

  All-nub : (P : A → Type 0) (fuel : ℕ) (xs : List A) → All P xs → All P (nub_rounds o fuel xs)
  unfolding nub_rounds
  All-nub P zero xs h = tt
  All-nub P (suc fuel) [] h = tt
  All-nub P (suc fuel) (x ∷ xs) h = (
    h.0,
    All-nub P fuel (filter (λ y. not (eq y x)) xs) (All-filter P (λ y. not (eq y x)) xs h.1),
  )

  All-map : {P Q : A → Type 0} → ((x : A) → P x → Q x) → (xs : List A) → All P xs → All Q xs
  All-map f [] h = tt
  All-map f (x ∷ xs) h = (f x h.0, All-map f xs h.1)

  nub_rounds-IsDistinct : (fuel : ℕ) (xs : List A) → IsDistinct (nub_rounds o fuel xs)
  unfolding nub_rounds
  nub_rounds-IsDistinct zero xs = tt
  nub_rounds-IsDistinct (suc fuel) [] = tt
  nub_rounds-IsDistinct (suc fuel) (x ∷ xs) =
      let others = filter (λ y. not (eq y x)) xs in
      let differ : All (λ y. eq y x ≡ false) others =
        All-map (λ y h. ground arith) others (filter-passes (λ y. not (eq y x)) xs) in
      (All-nub (λ y. eq y x ≡ false) fuel others differ, nub_rounds-IsDistinct fuel others)

  -- What holds of the elements kept, and of those left out, holds of all.
  All-unfilter :
      (Q : A → Type 0) (g : A → Bool) (xs : List A)
      → All Q (filter g xs)
      → ((a : A) → g a ≡ false → Q a)
      → All Q xs
  unfolding filter
  All-unfilter Q g [] h out = tt
  All-unfilter Q g (x ∷ xs) h out = elim (Bool-cases (g x)) [
    | inl keeps ↦
        let kept : All Q (x ∷ filter g xs) =
          subst (λ b. All Q (if b then x ∷ filter g xs else filter g xs)) keeps h in
        (kept.0, All-unfilter Q g xs kept.1 out)
    | inr drops ↦
        let kept : All Q (filter g xs) =
          subst (λ b. All Q (if b then x ∷ filter g xs else filter g xs)) drops h in
        (out x drops, All-unfilter Q g xs kept out)
  ]

  nub_rounds-represents :
      ((a : A) → eq a a ≡ true)
      → (fuel : ℕ) (xs : List A) → length xs ≤ fuel
      → All (λ a. Some (eq a) (nub_rounds o fuel xs)) xs
  unfolding nub_rounds
  nub_rounds-represents same zero [] h = tt
  nub_rounds-represents same zero (x ∷ xs) h = absurd (omega arith)
  nub_rounds-represents same (suc fuel) [] h = tt
  nub_rounds-represents same (suc fuel) (x ∷ xs) h =
      let others = filter (λ y. not (eq y x)) xs in
      let kept =
        nub_rounds-represents same fuel others
          (omega (arith, length-filter (λ y. not (eq y x)) xs)) in
      (
        inl (same x),
        All-unfilter (λ a. Some (eq a) (x ∷ nub_rounds o fuel others)) (λ y. not (eq y x)) xs
            (All-map (λ a there. inr there) others kept) (λ a out. inl (ground arith)),
      )

  -- `Nub` gives a list without repetitions, in which every element of the given list is represented
  -- by one equal to it. Every element is equal to itself.
  pub nub_lem :
      ((a : A) → eq a a ≡ true)
      → (xs : List A) → IsDistinct (nub o xs) × All (λ a. Some (eq a) (nub o xs)) xs
  unfolding nub
  nub_lem same xs = (
    nub_rounds-IsDistinct (length xs) xs,
    nub_rounds-represents same (length xs) xs (omega arith),
  )

  -- Every later element is at least an earlier one.
  abbrev pub IsOrdered : List A → Type 0
  IsOrdered [] = Unit
  IsOrdered (x ∷ xs) = All (λ y. ge y x ≡ true) xs × IsOrdered xs

  All-push : (P : A → Type 0) (x : A) (xs : List A) → P x → All P xs → All P (push o x xs)
  unfolding push
  All-push P x [] p h = (p, tt)
  All-push P x (y ∷ ys) p h = elim (Bool-cases (ge y x)) [
    | inl stop ↦ rw stop (p, h)
    | inr on ↦ rw on (h.0, All-push P x ys p h.1)
  ]

  -- `Push` keeps an ordered list in order, and the new element is one more in it. The order is total
  -- and transitive.
  pub push_lem :
      ((a c : A) → ge a c ≡ false → ge c a ≡ true)
      → ((a c d : A) → ge a c ≡ true → ge c d ≡ true → ge a d ≡ true)
      → (x : A) (xs : List A) → IsOrdered xs
      → IsOrdered (push o x xs) × (length (push o x xs) ≡ suc (length xs))
  unfolding push
  push_lem total trans x [] h = ((tt, tt), refl)
  push_lem total trans x (y ∷ ys) h = elim (Bool-cases (ge y x)) [
    | inl stop ↦ rw stop (((stop, All-map (λ z from. trans z y x from stop) ys h.0), h), refl)
    | inr on ↦
        let (later, size) = push_lem total trans x ys h.1 in
        rw on ((All-push (λ z. ge z y ≡ true) x ys (total y x on) h.0, later), omega (arith, size))
  ]
