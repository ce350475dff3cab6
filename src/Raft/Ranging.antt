-- ===== src/Raft/Ranging.antt =====
-- The loops of raftconsensus/node.go that cut elements out of the slice that they range over:
-- `for i, x := range xs { if test(x) { xs = append(xs[:i], xs[i+1:]...) } }`.
use raft_project.Common.{ℕ, zero, suc, ◌+◌, ◌-◌, Bool, Option, none, some, List, ◌++◌}
use raft_project.Common.Tests.{ltb, if◌then◌else◌}
use raft_project.Common.Lists.{length, take, drop, get_elem?}
use raft_project.Common.Outcome.{and_then}

module _ {A : Type 0} where
  -- The array after the `i`-th of the slice's `len` elements has been cut out: those behind it move
  -- down, the cells behind the slice stay.
  unfoldable pub cut : ℕ → ℕ → List A → List A
  cut i len array = take i array ++ (drop (i + 1) (take len array) ++ drop (len - 1) array)

  -- `rounds` rounds are left of as many as the slice had elements at first; `x` is read from the array
  -- as it is then. `xs[i+1:]` panics behind the slice's end.
  unfoldable pub remove_ranging : (A → Bool) → ℕ → ℕ → ℕ → List A → Option (List A)
  remove_ranging test zero i len array = some (take len array)
  remove_ranging test (suc rounds) i len array =
      let kept = remove_ranging test rounds (i + 1) len array in
      let removed = remove_ranging test rounds (i + 1) (len - 1) (cut i len array) in
      and_then (get_elem? array i)
        (λ x. if test x then (if ltb len (i + 1) then none else removed) else kept)

  unfoldable pub remove_matching : (A → Bool) → List A → Option (List A)
  remove_matching test xs = remove_ranging test (length xs) 0 (length xs) xs
