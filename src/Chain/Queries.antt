-- ===== src/Chain/Queries.antt =====
-- What blockchain/blockchain.go reads from the chain: heights, blocks and transactions; and `NewBlock`.
pub mod Stored
use raft_project.Common.{
  ℕ, zero, suc, ◌+◌, ◌-◌, ◌%◌, ◌^◌, Bool, true, false, Option, none, some, List, [], ◌∷◌, ◌++◌,
}
use raft_project.Common.Tests.{ltb, ◌==◌, if◌then◌else◌}
use raft_project.Common.Lists.{Bytes, codes, length}
use raft_project.Common.Outcome.{Outcome, ok, err, panic, ◌>>=◌, ◌>>◌, fail_if, or_panic}
use raft_project.Codec.{e64func, d64func, LengthError}
use raft_project.Store.{Badger, Fetch, found, not_exist, failed, mget}
use raft_project.Transaction.{Transaction}
use raft_project.Merkle as Merkle
use raft_project.Chain.{add_u64}
use raft_project.Chain.Distr.{distr}
use raft_project.Chain.Block.{Block}

-- A read that fails, a value that is no number, one that is no JSON, a commit that is refused.
pub data QueryError : Type 0 where
  no_value no_number no_json no_commit : QueryError

abbrev pub value_of : Fetch → Outcome QueryError Bytes
value_of (found v) = ok v
value_of not_exist = err no_value
value_of failed = err no_value

abbrev pub u64_of : Outcome LengthError ℕ → Outcome QueryError ℕ
u64_of (ok n) = ok n
u64_of (err e) = err no_number
u64_of panic = panic

abbrev pub json_of : {A : Type 0} → Option A → Outcome QueryError A
json_of none = err no_json
json_of (some a) = ok a

-- The tree's functions give no error; what they refuse is a panic.
abbrev pub tree_of : {A : Type 0} → Outcome Bytes A → Outcome QueryError A
tree_of (ok a) = ok a
tree_of (err e) = panic
tree_of panic = panic

unfoldable pub numbered : ℕ → List Transaction → List Transaction
numbered n [] = []
numbered n (tx ∷ txs) = record tx { block_number = n } ∷ numbered n txs

unfoldable pub texts : (Transaction → Bytes) → List Transaction → List Bytes
texts to_bytes [] = []
texts to_bytes (tx ∷ txs) = to_bytes tx ∷ texts to_bytes txs

-- `SetHash`: the hash is of the height, the block before, the transactions' JSON and the time.
unfoldable pub set_hash : (Bytes → Bytes) → (List Transaction → Bytes) → Block → Block
set_hash sha3 to_json blk = record blk {
  hash =
      sha3
        (e64func blk.height ++ (blk.prev_block_hash ++ (to_json blk.txs ++ e64func blk.timestamp)));
}

module _ (b : Badger) where
  open b use {Txn, get}

  unfoldable pub get_max_block_height : Txn → Outcome QueryError ℕ
  get_max_block_height s = do num ← value_of (get s (codes "height")); u64_of (d64func num)

  -- `commits` is whether badger takes the commit.
  unfoldable pub height : Txn → Bool → Outcome QueryError ℕ
  height s commits = do
    h ← value_of (get s (codes "height"))
    ht ← u64_of (d64func h)
    if commits then ok ht else err no_commit

  -- JSON is not part of the repository: `of_json` is its decoding.
  unfoldable pub get_block_by_height : (Bytes → Option Block) → Txn → ℕ → Outcome QueryError Block
  get_block_by_height of_json s h = do
    hash ← value_of (mget b s (e64func h) (codes "hash"))
    text ← value_of (get s hash)
    json_of (of_json text)

  unfoldable pub get_transaction :
      (Bytes → Option Transaction) → Txn → Bytes → Outcome QueryError Transaction
  get_transaction of_json s hash = do text ← value_of (get s hash); json_of (of_json text)

  unfoldable pub get_transaction_height : Txn → Bytes → Outcome QueryError ℕ
  get_transaction_height s hash = do
    tx_data ← value_of (get s hash)
    h ← value_of (mget b s hash tx_data)
    u64_of (d64func h)

  unfoldable pub get_transaction_by_hash :
      (Bytes → Option Transaction) → Txn → Bytes → Bool → Outcome QueryError Transaction
  get_transaction_by_hash of_json s hash commits = do
    tx ← get_transaction of_json s hash
    if commits then ok tx else err no_commit

  -- The loop of `GetBlockSection`, over a number of heights.
  unfoldable pub get_blocks : (Bytes → Option Block) → Txn → ℕ → ℕ → Outcome QueryError (List Block)
  get_blocks of_json s i zero = ok []
  get_blocks of_json s i (suc n) =
      let rest = get_blocks of_json s (suc i) n in
      get_block_by_height of_json s i >>= λ blk. rest >>= λ blks. ok (blk ∷ blks)

  -- `NewBlock`, at the time `now`. The hashes, ed25519 and the JSON of transactions are not part of the
  -- repository.
  unfoldable pub new_block :
      (Bytes → Bytes)
      → (Bytes → Bytes)
      → (Bytes → Bytes → Bytes → Bool)
      → (Transaction → Bytes)
      → (List Transaction → Bytes)
      → Txn
      → Bool
      → ℕ
      → List Transaction
      → Bytes
      → Bytes
      → Bytes
      → Bytes
      → Outcome QueryError Block
  new_block sha256 sha3 verify to_bytes to_json s commits now trs minaddr ds cm qtj = do
    h_c ← height s commits
    let txs = numbered (add_u64 h_c 1) trs
    tree ← tree_of (Merkle.new sha256 (texts to_bytes txs))
    root ← tree_of (Merkle.get_mt_hash sha256 tree)
    bhash ← value_of (mget b s (e64func h_c) (codes "hash"))
    let hd = add_u64 h_c 1
    mintx ← or_panic (distr verify txs minaddr ds cm qtj hd)
    let blk : Block = record {
      height = hd;
      prev_block_hash = bhash;
      txs = txs;
      root = root;
      version = 1;
      timestamp = now;
      hash = [];
      miner = minaddr;
      txres = [];
      first_tx = mintx;
    }
    ok (set_hash sha3 to_json blk)
