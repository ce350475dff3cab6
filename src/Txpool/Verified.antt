-- ===== src/Txpool/Verified.antt =====
-- `VerifyBlcok` of txpool/txpool.go, with which a node checks the transactions of a block.
pub mod Root
use raft_project.Common.{ℕ, Bool, true, false, Option, List, [], ◌∷◌}
use raft_project.Common.Lists.{Bytes}
use raft_project.Common.Outcome.{Outcome, ok, err, panic}
use raft_project.Store.{Badger}
use raft_project.Transaction.{Transaction}
use raft_project.Merkle as Merkle
use raft_project.Merkle.Proofs.{verify_node}
use raft_project.Chain.Results.{Fault}
use raft_project.Chain.Block.{Blocks}
use raft_project.Chain.Queries.{texts}
use raft_project.Txpool.{AddError, verify}

module _ (b : Badger) (grow : ℕ → ℕ → ℕ) (sha256 : Bytes → Bytes)
    (ed25519 : Bytes → Bytes → Bytes → Bool) (to_bytes : Transaction → Bytes) (qtj : Bytes) where
  open b use {Txn}

  abbrev pub verified_then :
      Txn × Outcome AddError (Unit {0})
      → (Txn → Txn × Outcome Fault Bool)
      → Txn × Outcome Fault Bool
  verified_then (s, ok done) k = k s
  verified_then (s, err e) k = (s, ok false)
  verified_then (s, panic) k = (s, panic)

  -- The loop over the transactions. `commits` is whether the first nonce that `verify` may write for
  -- a transaction's sender is committed.
  unfoldable pub verify_all :
      (Transaction → Bool) → Txn → List Transaction → Txn × Outcome Fault Bool
  verify_all commits s [] = (s, ok true)
  verify_all commits s (tx ∷ txs) =
      verified_then (verify b ed25519 qtj s tx (commits tx)) (λ s'. verify_all commits s' txs)

  abbrev pub tree_node :
      Bytes → Outcome Bytes (Option (Option Merkle.MerkleNode)) → Outcome Bytes Bool
  tree_node root (ok (Option.some tree)) = verify_node grow sha256 tree root
  tree_node root (ok Option.none) = panic
  tree_node root (err e) = panic
  tree_node root panic = panic

  -- `tree.VerifyNode(b.Root)`
  unfoldable pub is_node : List Transaction → Bytes → Outcome Bytes Bool
  is_node txs root = tree_node root (Merkle.new sha256 (texts to_bytes txs))

  abbrev pub unless_node :
      Txn → Outcome Bytes Bool → Txn × Outcome Fault Bool → Txn × Outcome Fault Bool
  unless_node s (ok true) rest = (s, ok false)
  unless_node s (ok false) rest = rest
  unless_node s (err e) rest = (s, panic)
  unless_node s panic rest = (s, panic)

  unfoldable pub verify_txs :
      (Transaction → Bool) → Txn → List Transaction → Bytes → Txn × Outcome Fault Bool
  verify_txs commits s [] root = (s, ok true)
  verify_txs commits s (tx ∷ txs) root =
      unless_node s (is_node (tx ∷ txs) root) (verify_all commits s (tx ∷ txs))

  -- `VerifyBlcok`: the chain after it, on which `verify` may write, and its answer.
  unfoldable pub verify_block : (Transaction → Bool) → Txn → Blocks → Txn × Outcome Fault Bool
  verify_block commits s blk = verify_txs commits s blk.txs blk.root
