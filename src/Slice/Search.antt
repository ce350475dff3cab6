-- ===== src/Slice/Search.antt =====
-- Searching a sorted list.
use raft_project.Common.{
  ℕ, zero, suc, ◌+◌, ◌-◌, ◌/◌, ◌≤◌, ◌<◌, ◌≡◌, ◌⊎◌, inl, inr, true, false, Option, none, some, List,
  arith,
}
use raft_project.Common.Tests.{ltb, Bool-cases, ltb-false→le, ltb→lt}
use raft_project.Common.Lists.{length, get_elem?, get_elem?-in_range}
use raft_project.Slice.{Ord, bsearch_rounds, bsearch}

-- Equal elements are on the same side of every other, and two elements are ordered or equal.
pub record Comparable {A : Type 0} (o : Ord A) : Type 0 where
  pub lt-eq : (a x c : A) → o.lt a x ≡ true → o.eq c x ≡ true → o.lt a c ≡ true
  pub eq-lt : (a x c : A) → o.eq a x ≡ false → o.lt a x ≡ false → o.eq c x ≡ true → o.lt c a ≡ true

module _ {A : Type 0} (o : Ord A) where
  open o use {eq, lt}

  -- No element is below one that stands before it.
  abbrev pub IsSorted : List A → Type 0
  IsSorted xs =
      (i j : ℕ) (a c : A)
      → i < j
      → get_elem? xs i ≡ some a
      → get_elem? xs j ≡ some c
      → lt c a ≡ false

  abbrev pub FoundAt : A → List A → ℕ → Type 0
  FoundAt x xs i = (a : A) × (get_elem? xs i ≡ some a) × (eq a x ≡ true)

  -- What a search in a range promises.
  abbrev pub Searches : A → List A → ℕ → ℕ → Option ℕ → Type 0
  Searches x xs start stop none =
      (i : ℕ) (a : A) → start ≤ i → i < stop → get_elem? xs i ≡ some a → eq a x ≡ false
  Searches x xs start stop (some i) = FoundAt x xs i

  -- A search in a part of a range that leaves out no element equal to the one searched for.
  widen :
      (x : A) (xs : List A) (start start' stop stop' : ℕ) (r : Option ℕ)
      → Searches x xs start' stop' r
      → ((i : ℕ) (a : A)
          → start ≤ i
          → i < stop
          → (i < start') ⊎ (stop' ≤ i)
          → get_elem? xs i ≡ some a
          → eq a x ≡ false)
      → Searches x xs start stop r
  widen x xs start start' stop stop' (some i) found outside = found
  widen x xs start start' stop stop' none inside outside = λ i a from to at_i.
      elim (Bool-cases (ltb i start')) [
        | inl before ↦ outside i a from to (inl (ltb→lt i start' before)) at_i
        | inr after ↦ elim (Bool-cases (ltb i stop')) [
          | inl within ↦ inside i a (ltb-false→le i start' after) (ltb→lt i stop' within) at_i
          | inr beyond ↦ outside i a from to (inr (ltb-false→le i stop' beyond)) at_i
        ]
      ]

  module _ (c : Comparable o) (x : A) (xs : List A) (sorted : IsSorted xs) where
    same_at :
        {i j : ℕ} {a b : A} → i ≡ j → get_elem? xs i ≡ some a → get_elem? xs j ≡ some b → a ≡ b
    same_at {i} {j} {a} {b} e p q =
        let both : ◌≡◌ {A = Option A} (some a) (some b) = cc (e, p, q) in cc both

    -- Below an element that is less than the one searched for, none is equal to it.
    none_below :
        (mid i : ℕ) (m a : A)
        → get_elem? xs mid ≡ some m
        → lt m x ≡ true
        → eq m x ≡ false
        → i < mid + 1
        → get_elem? xs i ≡ some a
        → eq a x ≡ false
    none_below mid i m a at_mid less differ le at_i = elim (Bool-cases (ltb i mid)) [
      | inl below ↦ elim (Bool-cases (eq a x)) [
        | inr unequal ↦ unequal
        | inl equal ↦
            cc (c.lt-eq m x a less equal, sorted i mid a m (ltb→lt i mid below) at_i at_mid)
      ]
      | inr beyond ↦
          let there : i ≡ mid = omega (arith, ltb-false→le i mid beyond) in
          rw (same_at there at_i at_mid) differ
    ]

    none_above :
        (mid i : ℕ) (m a : A)
        → get_elem? xs mid ≡ some m
        → lt m x ≡ false
        → eq m x ≡ false
        → mid ≤ i
        → get_elem? xs i ≡ some a
        → eq a x ≡ false
    none_above mid i m a at_mid not_less differ le at_i = elim (Bool-cases (ltb mid i)) [
      | inl above ↦ elim (Bool-cases (eq a x)) [
        | inr unequal ↦ unequal
        | inl equal ↦
            cc (
              c.eq-lt m x a differ not_less equal,
              sorted mid i m a (ltb→lt mid i above) at_mid at_i,
            )
      ]
      | inr beyond ↦
          let there : i ≡ mid = omega (arith, ltb-false→le mid i beyond) in
          rw (same_at there at_i at_mid) differ
    ]

    searches :
        (fuel start stop : ℕ)
        → stop ≤ length xs
        → stop ≤ start + fuel
        → Searches x xs start stop (bsearch_rounds o fuel x xs start stop)
    unfolding bsearch_rounds
    searches zero start stop inside enough = λ i a from to at_i. absurd (omega arith)
    searches (suc fuel) start stop inside enough = elim (Bool-cases (ltb start stop)) [
      | inr done ↦
          rw done (λ i a from to at_i. absurd (omega (arith, ltb-false→le start stop done)))
      | inl more ↦
          let mid : ℕ = start + (stop - 1 - start) / 2 in
          let (m, at_mid) = get_elem?-in_range xs mid (omega (arith, ltb→lt start stop more)) in
          elim (Bool-cases (eq m x)) [
            | inl same ↦ rw (more, at_mid, same) (m, at_mid, same)
            | inr differ ↦ elim (Bool-cases (lt m x)) [
              | inl less ↦
                  rw (more, at_mid, differ, less)
                    (widen x xs start (mid + 1) stop stop
                      (bsearch_rounds o fuel x xs (mid + 1) stop)
                      (searches fuel (mid + 1) stop inside (omega arith))
                      (λ i a from to out at_i.
                        none_below mid i m a at_mid less differ (omega arith) at_i))
              | inr not_less ↦
                  rw (more, at_mid, differ, not_less)
                    (widen x xs start start stop mid (bsearch_rounds o fuel x xs start mid)
                      (searches fuel start mid (omega (arith, ltb→lt start stop more))
                        (omega (arith, ltb→lt start stop more)))
                      (λ i a from to out at_i.
                        none_above mid i m a at_mid not_less differ (omega arith) at_i))
            ]
          ]
    ]

    -- In a list where no element is below one before it, the binary search gives the place of an
    -- element equal to the one searched for, and nothing only if no element is equal to it. Equal
    -- elements compare alike, and two elements are ordered or equal.
    pub bsearch_lem : Searches x xs 0 (length xs) (bsearch o x xs)
    unfolding bsearch
    bsearch_lem = searches (length xs) 0 (length xs) (omega arith) (omega arith)
