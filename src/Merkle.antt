-- ===== src/Merkle.antt =====
-- The Merkle tree of until/merkle/merkle.go and types.go. The hash function comes from outside the
-- repository, and `GenHash` resets it before each use, so it is a function of the data.
pub mod PowerOfTwo
pub mod Build
pub mod Roots
pub mod Proofs
use Prim.Native.Nat.{bit_and}
use raft_project.Common.{
  ℕ, zero, suc, ◌+◌, ◌-◌, ◌/◌, Bool, true, false, Option, none, some, List, [], ◌∷◌, ◌++◌,
}
use raft_project.Common.Tests.{◌==◌, if◌then◌else◌}
use raft_project.Common.Lists.{Bytes, bytes_eq, length, take, drop}
use raft_project.Common.Outcome.{Outcome, ok, err, panic, ◌>>=◌}

-- A `*MerkleNode` that is not nil: a leaf with its data, or a branch; both with their root hash.
pub data MerkleNode : Type 0 where
  leaf : Bytes → Bytes → MerkleNode
  branch : Bytes → MerkleNode → MerkleNode → MerkleNode

abbrev pub root_of : MerkleNode → Bytes
root_of (leaf content root) = root
root_of (branch root left right) = root

-- `powerOfTwo0` clears the lowest bits of its argument until one is left; that takes fewer rounds
-- than the argument.
unfoldable pub power_of_two0 : ℕ → ℕ → ℕ
power_of_two0 zero n = n
power_of_two0 (suc fuel) n =
    let rest = power_of_two0 fuel (bit_and n (n - 1)) in if bit_and n (n - 1) == 0 then n else rest

unfoldable pub power_of_two : ℕ → ℕ
power_of_two n = if bit_and n (n - 1) == 0 then n / 2 else power_of_two0 n n

-- `nil` nodes are `none`.
module _ (h : Bytes → Bytes) where
  unfoldable pub mk_leaf : Bytes → Option MerkleNode
  mk_leaf content = if length content == 0 then none else some (leaf content (h content))

  unfoldable pub mk_branch : Option MerkleNode → Option MerkleNode → Option MerkleNode
  mk_branch none right = none
  mk_branch (some left) none = none
  mk_branch (some left) (some right) = some (branch (h (root_of left ++ root_of right)) left right)

  unfoldable pub first_leaf : List Bytes → Outcome Bytes (Option MerkleNode)
  first_leaf [] = panic
  first_leaf (content ∷ rest) = ok (mk_leaf content)

  -- `mkMerkleTreeRoot`; both halves of a split are shorter, so `n` is fuel enough.
  unfoldable pub mk_merkle_tree_root : ℕ → ℕ → List Bytes → Outcome Bytes (Option MerkleNode)
  mk_merkle_tree_root zero n items = panic
  mk_merkle_tree_root (suc fuel) n items =
      let i = power_of_two n in
      let split = (do
        left ← mk_merkle_tree_root fuel i (take i items)
        right ← mk_merkle_tree_root fuel (n - i) (drop i items)
        ok (mk_branch left right)) in
      if n == 1 then first_leaf items else split

  -- `New`: nil for no data; else a tree, whose own root node may be nil.
  unfoldable pub new : List Bytes → Outcome Bytes (Option (Option MerkleNode))
  new [] = ok none
  new (x ∷ xs) =
      mk_merkle_tree_root (length (x ∷ xs)) (length (x ∷ xs)) (x ∷ xs) >>= λ t. ok (some t)

  -- `GetMtHash`, which panics on a tree without a root node.
  unfoldable pub get_mt_hash : Option (Option MerkleNode) → Outcome Bytes Bytes
  get_mt_hash none = ok []
  get_mt_hash (some none) = panic
  get_mt_hash (some (some node)) = ok (root_of node)
