-- ===== src/Tests/Trees.antt =====
-- The theorems on trees and lists at concrete inputs.
use raft_project.Common.{
  ℕ, zero, suc, ◌+◌, ◌<◌, ◌≡◌, ◌≢◌, ◌⊎◌, refl, Bool, true, false, not, Option, none, some, List, [],
  ◌∷◌, ◌++◌, arith,
}
use raft_project.Common.Tests.{ltb, ◌==◌}
use raft_project.Common.Lists.{Bytes, bytes_eq-false→ne, codes, length, All, take, get_elem?}
use raft_project.Common.Outcome.{ok}
use raft_project.Merkle.{MerkleNode, root_of, new, get_mt_hash}
use raft_project.Merkle.Build.{leaves, IsHashed, new-leaves}
use raft_project.Merkle.Roots.{Collision, root_binds}
use raft_project.Slice.{Ord}
use raft_project.Slice.Search.{IsSorted, Comparable}

-- A hash of four bytes: the first four of the data and of what fills it up.
abbrev first_four : Bytes → Bytes
first_four x = take 4 (x ++ 1 ∷ 2 ∷ 3 ∷ 4 ∷ [])

first_four-sized : (x : Bytes) → length (first_four x) ≡ 4
first_four-sized [] = refl
first_four-sized (a ∷ []) = refl
first_four-sized (a ∷ c ∷ []) = refl
first_four-sized (a ∷ c ∷ d ∷ []) = refl
first_four-sized (a ∷ c ∷ d ∷ e ∷ xs) = omega arith

abbrev a : Bytes
a = codes "a"

abbrev c : Bytes
c = codes "c"

a-ne : a ≢ []
unfolding raft_project.Common.Lists.bytes_eq
a-ne = bytes_eq-false→ne a [] refl

c-ne : c ≢ []
unfolding raft_project.Common.Lists.bytes_eq
c-ne = bytes_eq-false→ne c [] refl

root_binds_example : (a ∷ c ∷ [] ≡ a ∷ c ∷ []) ⊎ Collision first_four
root_binds_example =
    root_binds first_four 4 first_four-sized a a (c ∷ []) (c ∷ []) (a-ne, (c-ne, tt))
      (a-ne, (c-ne, tt)) refl refl

new-leaves_example :
    (t : MerkleNode) × (new first_four (a ∷ c ∷ []) ≡ ok (some (some t)))
    × (leaves t ≡ a ∷ c ∷ [])
    × IsHashed first_four t
    × (get_mt_hash first_four (some (some t)) ≡ ok (root_of t))
new-leaves_example = new-leaves first_four a (c ∷ []) (a-ne, (c-ne, tt))

-- Numbers in their order, as `ordUint64` has them.
abbrev numbers : Ord ℕ
numbers = record { eq = λ x y. x == y; lt = ltb; ge = λ x y. not (ltb x y) }

abbrev odd : List ℕ
odd = 1 ∷ 3 ∷ 5 ∷ []

odd-IsSorted : IsSorted numbers odd
odd-IsSorted zero zero a c before at_i at_j = absurd (omega arith)
odd-IsSorted (suc i) zero a c before at_i at_j = absurd (omega arith)
odd-IsSorted zero (suc zero) a c before at_i at_j = ground arith
odd-IsSorted zero (suc (suc zero)) a c before at_i at_j = ground arith
odd-IsSorted zero (suc (suc (suc j))) a c before at_i at_j = cc at_j
odd-IsSorted (suc zero) (suc zero) a c before at_i at_j = absurd (omega arith)
odd-IsSorted (suc zero) (suc (suc zero)) a c before at_i at_j = ground arith
odd-IsSorted (suc zero) (suc (suc (suc j))) a c before at_i at_j = cc at_j
odd-IsSorted (suc (suc i)) (suc zero) a c before at_i at_j = absurd (omega arith)
odd-IsSorted (suc (suc zero)) (suc (suc zero)) a c before at_i at_j = absurd (omega arith)
odd-IsSorted (suc (suc zero)) (suc (suc (suc j))) a c before at_i at_j = cc at_j
odd-IsSorted (suc (suc (suc i))) (suc (suc j)) a c before at_i at_j = cc at_i

numbers-Comparable : Comparable numbers
numbers-Comparable = record {
  lt-eq = λ a x c p q. ground arith;
  eq-lt = λ a x c p q r. ground arith;
}
