-- ===== src/Txpool/Verified/Root.antt =====
-- What `VerifyBlcok` makes of a block's root.
use raft_project.Common.{ℕ, ◌≡◌, ◌≢◌, refl, sym, ◌∙◌, Bool, false, List, [], ◌∷◌, arith}
use raft_project.Common.Lists.{Bytes, bytes_eq, bytes_eq_iff, All}
use raft_project.Common.Outcome.{Outcome, ok, ◌>>=◌}
use raft_project.Store.{Badger}
use raft_project.Transaction.{Transaction}
use raft_project.Merkle as Merkle
use raft_project.Merkle.{root_of}
use raft_project.Merkle.Build.{IsFilled, new-leaves}
use raft_project.Merkle.Proofs.{verify_node-none}
use raft_project.Chain.Block.{Blocks}
use raft_project.Chain.Queries.{texts}
use raft_project.Txpool.Verified.{is_node, verify_all, verify_txs, verify_block}

module _ (b : Badger) (grow : ℕ → ℕ → ℕ) (sha256 : Bytes → Bytes)
    (ed25519 : Bytes → Bytes → Bytes → Bool) (to_bytes : Transaction → Bytes) (qtj : Bytes) where
  not_a_node :
      (tx : Transaction) (txs : List Transaction) (root r : Bytes)
      → All IsFilled (texts to_bytes (tx ∷ txs))
      → root ≢ []
      → All (λ x. sha256 x ≢ sha256 root) (texts to_bytes (tx ∷ txs))
      → (Merkle.new sha256 (texts to_bytes (tx ∷ txs)) >>= Merkle.get_mt_hash sha256) ≡ ok r
      → sha256 root ≢ r
      → is_node b grow sha256 ed25519 to_bytes qtj (tx ∷ txs) root ≡ ok false
  unfolding is_node texts
  not_a_node tx txs root r filled known apart top other =
      let (t, built, listed, hashed, hash) =
        new-leaves sha256 (to_bytes tx) (texts to_bytes txs) filled in
      let same : ◌≡◌ {A = Outcome Bytes Bytes} (ok (root_of t)) (ok r) =
        sym hash ∙ rw (← top, built) refl in
      let top_root : root_of t ≡ r = cc same in
      let differ : bytes_eq (sha256 root) (root_of t) ≡ false =
        ground (arith, bytes_eq_iff (sha256 root) (root_of t), top_root, other) in
      rw (built, verify_node-none grow sha256 t root hashed (rw listed apart) known, differ) refl

  -- The root that a block states is not compared with the root of its transactions: if it is not
  -- empty, and its hash is that of no transaction and not the tree's root, the check of the block
  -- gives what the checks of its transactions give. The block has a transaction, the transactions'
  -- texts are not empty, and their tree has a root.
  pub verify_block-root :
      (commits : Transaction → Bool) (s : b.Txn) (blk : Blocks) (tx : Transaction)
      (txs : List Transaction) (r : Bytes)
      → blk.txs ≡ tx ∷ txs
      → All IsFilled (texts to_bytes (tx ∷ txs))
      → blk.root ≢ []
      → All (λ x. sha256 x ≢ sha256 blk.root) (texts to_bytes (tx ∷ txs))
      → (Merkle.new sha256 (texts to_bytes (tx ∷ txs)) >>= Merkle.get_mt_hash sha256) ≡ ok r
      → sha256 blk.root ≢ r
      → verify_block b grow sha256 ed25519 to_bytes qtj commits s blk
        ≡ verify_all b grow sha256 ed25519 to_bytes qtj commits s blk.txs
  unfolding verify_block verify_txs
  verify_block-root commits s blk tx txs r is filled known apart top other =
      rw (is, not_a_node tx txs blk.root r filled known apart top other) refl
