-- ===== src/Txpool/Kept.antt =====
-- What is left in the pool after a block.
use raft_project.Common.{
  ℕ, zero, suc, ◌+◌, ◌/◌, ◌≤◌, ◌<◌, ◌≡◌, refl, inl, inr, Bool, true, false, not, ◌&&◌, ◌||◌, ◌∙◌,
  List, [], ◌∷◌, arith,
}
use raft_project.Common.Tests.{ltb, ◌==◌, if◌then◌else◌, Bool-cases, ltb→lt}
use raft_project.Common.Lists.{bytes_eq, count, length}
use raft_project.Common.Outcome.{ok}
use raft_project.Transaction.{Transaction}
use raft_project.Chain.{sub_u64}
use raft_project.Txpool.{
  lt_i64, heap_push, pop_rounds, push_fresh, without, without_all, Pool, filter,
}
use raft_project.Txpool.Heap.{heap_lem}

-- The rounds that count up to a length that falls take out half of the heap, rounded up.
pub pop_rounds_lem :
    (f : Transaction → Bool) (fuel i : ℕ) (xs : List Transaction)
    → length xs ≤ i + fuel
    → (popped : List Transaction) × (rest : List Transaction) × (pop_rounds fuel i xs
        ≡ ok (popped, rest))
      × (count f popped + count f rest ≡ count f xs)
      × (length rest ≡ (if ltb i (length xs) then (length xs + i) / 2 else length xs))
unfolding pop_rounds
pop_rounds_lem f zero i xs h = ([], xs, refl, omega arith, ground arith)
pop_rounds_lem f (suc fuel) i [] h = ([], [], ground arith, omega arith, ground arith)
pop_rounds_lem f (suc fuel) i (x ∷ xs) h = elim (Bool-cases (ltb i (suc (length xs)))) [
  | inr done ↦ ([], x ∷ xs, rw done refl, omega arith, rw done refl)
  | inl more ↦
      let (_, _, tx, left, out, counted, size) = heap_lem f x x xs in
      let (popped, rest, rounds, all, half) = pop_rounds_lem f fuel (suc i) left (omega arith) in
      (
        tx ∷ popped,
        rest,
        rw (more, out, rounds) refl,
        omega arith,
        rw more (ground (arith, ltb→lt i (suc (length xs)) more)),
      )
]

-- The test of the last ten seconds.
abbrev pub fresh : ℕ → Transaction → Bool
fresh now tx = lt_i64 (sub_u64 now tx.time) 10

push_fresh_counts :
    (f : Transaction → Bool) (now : ℕ)
    → ((tx : Transaction) → f tx ≡ true → fresh now tx ≡ true)
    → (txs xs : List Transaction) → count f (push_fresh now txs xs) ≡ count f txs + count f xs
unfolding push_fresh
push_fresh_counts f now recent [] xs = omega arith
push_fresh_counts f now recent (tx ∷ txs) xs = elim (Bool-cases (fresh now tx)) [
  | inl young ↦
      rw young (
        omega
          (arith, push_fresh_counts f now recent txs (heap_push tx xs), (heap_lem f tx tx xs).0))
  | inr old ↦ elim (Bool-cases (f tx)) [
    | inl passes ↦ cc (recent tx passes, old)
    | inr fails ↦ rw (old, fails) (omega (arith, push_fresh_counts f now recent txs xs))
  ]
]

push_fresh_none :
    (now : ℕ) (txs xs : List Transaction) → count (fresh now) txs ≡ 0 → push_fresh now txs xs ≡ xs
unfolding push_fresh
push_fresh_none now [] xs h = refl
push_fresh_none now (tx ∷ txs) xs h = elim (Bool-cases (fresh now tx)) [
  | inl young ↦
      let one : 0 < count (fresh now) (tx ∷ txs) = rw young (omega arith) in absurd (omega arith)
  | inr old ↦ rw old (
      push_fresh_none now txs xs (
        let none_here : count (fresh now) (tx ∷ txs) ≡ count (fresh now) txs =
          rw old (omega arith) in
        omega arith))
]

-- Whether a transaction has the sender and the nonce of one of a block's.
abbrev pub in_block : List Transaction → Transaction → Bool
in_block [] u = false
in_block (tx ∷ txs) u = (bytes_eq tx.from u.from && tx.nonce == u.nonce) || in_block txs u

count-without :
    (f : Transaction → Bool) (tx : Transaction) (xs : List Transaction)
    → count f (without tx xs)
      ≡ count (λ u. f u && not (bytes_eq tx.from u.from && tx.nonce == u.nonce)) xs
unfolding without
count-without f tx [] = refl
count-without f tx (u ∷ us) = ground (arith, count-without f tx us)

count-same :
    (f g : Transaction → Bool) (xs : List Transaction)
    → ((u : Transaction) → f u ≡ g u)
    → count f xs ≡ count g xs
count-same f g [] h = refl
count-same f g (x ∷ xs) h = rw (h x, count-same f g xs h) refl

both_tests : (x y z : Bool) → ((x && not z) && not y) ≡ (x && not (y || z))
both_tests true true true = refl
both_tests true true false = refl
both_tests true false true = refl
both_tests true false false = refl
both_tests false y z = refl

count-without_all :
    (f : Transaction → Bool) (txs xs : List Transaction)
    → count f (without_all txs xs) ≡ count (λ u. f u && not (in_block txs u)) xs
unfolding without_all
count-without_all f [] xs = count-same f (λ u. f u && true) xs (λ u. ground arith)
count-without_all f (tx ∷ txs) xs =
    count-without_all f txs (without tx xs)
    ∙ count-without (λ u. f u && not (in_block txs u)) tx xs
    ∙ count-same _ (λ u. f u && not (in_block (tx ∷ txs) u)) xs
        (λ u. both_tests (f u) (bytes_eq tx.from u.from && tx.nonce == u.nonce) (in_block txs u))

module _ (pool : Pool) (txs : List Transaction) (now : ℕ) where
  abbrev left : List Transaction
  left = without_all txs pool.list

  -- After a block the pool drops no transaction of the last ten seconds but those of the block, and
  -- takes in none: for every test that only such transactions pass, it has as many that pass it as
  -- it had, but for those with both the sender and the nonce of one of the block's.
  pub filter_lem :
      (f : Transaction → Bool)
      → ((tx : Transaction) → f tx ≡ true → fresh now tx ≡ true)
      → (p : Pool) × (filter pool txs now ≡ ok p)
        × (count f p.list ≡ count (λ u. f u && not (in_block txs u)) pool.list)
  unfolding filter
  filter_lem f recent =
      let (popped, rest, rounds, all, _) = pop_rounds_lem f (length left) 0 left (omega arith) in
      (
        record pool { list = push_fresh now popped rest },
        rw rounds refl,
        omega (
          arith,
          push_fresh_counts f now recent popped rest,
          all,
          count-without_all f txs pool.list,
        ),
      )

  -- Of transactions that are all older than ten seconds, and not the block's, the pool keeps half:
  -- its loop counts up to the length of the heap that it empties.
  pub filter_keeps_half :
      count (fresh now) (without_all txs pool.list) ≡ 0
      → (p : Pool) × (filter pool txs now ≡ ok p)
        × (length p.list ≡ length (without_all txs pool.list) / 2)
  unfolding filter
  filter_keeps_half stale =
      let (popped, rest, rounds, all, half) =
        pop_rounds_lem (fresh now) (length left) 0 left (omega arith) in
      let kept = push_fresh_none now popped rest (omega arith) in
      (record pool { list = push_fresh now popped rest }, rw rounds refl, rw kept (ground (arith)))
