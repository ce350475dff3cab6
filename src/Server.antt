-- ===== src/Server.antt =====
-- What the HTTP server of server/server.go answers, as values: JSON, hexadecimal text and HTTP are not
-- part of the repository.
pub mod Paging
use raft_project.Common.{
  ℕ, zero, suc, ◌+◌, ◌-◌, ◌*◌, ◌%◌, ◌^◌, ◌≡◌, Bool, true, false, ◌||◌, Option, none, some, List, [],
  ◌∷◌, ◌++◌,
}
use raft_project.Common.Tests.{ltb, ◌==◌, if◌then◌else◌}
use raft_project.Common.Lists.{Bytes, bytes_eq, length}
use raft_project.Common.Outcome.{Outcome, ok, err, panic, ◌>>=◌, ◌>>◌, fail_if}
use raft_project.Codec.{e64func}
use raft_project.Store.{Badger, Fetch, found, not_exist, failed, mget, mset}
use raft_project.Store.Scan.{Iterator, mkvs}
use raft_project.Transaction.{Transaction, Order}
use raft_project.Chain.{add_u64, sub_u64, nonce_map, keep, is_value}
use raft_project.Chain.Distr.{MinerTx}
use raft_project.Chain.Block.{Block}
use raft_project.Chain.Queries.{
  QueryError, no_value, get_max_block_height, get_block_by_height, get_transaction, json_of,
}
use raft_project.Txpool.{lt_i64, fetched_word, or_zero, Pool, AddError, add}

-- The codes of server/servererror.go but for success.
pub data ErrorCode : Type 0 where
  err_json err_no_nonce err_no_transaction err_no_tx_by_hash err_data err_no_block : ErrorCode
  err_tx err_no_block_height : ErrorCode

-- A body that is read as `resp`; `num` and `page` are `int`s, as words.
pub record ReqData : Type 0 where
  pub address : Bytes
  pub hash : Bytes
  pub num : ℕ
  pub page : ℕ

-- The texts of bytes, both ways; an odd or a wrong digit is an error.
pub record Hex : Type 0 where
  pub encode : Bytes → Bytes
  pub decode : Bytes → Option Bytes

-- `Order`, `Transaction` and `Block` of the answers.
pub record OrderView : Type 0 where
  pub id : Bytes
  pub address : Bytes
  pub price : ℕ
  pub hash : Bytes
  pub signature : Bytes
  pub ciphertext : Bytes
  pub tradename : Bytes
  pub region : Bytes

pub record TransactionView : Type 0 where
  pub nonce : ℕ
  pub block_number : ℕ
  pub amount : ℕ
  pub from : Bytes
  pub to : Bytes
  pub hash : Bytes
  pub signature : Bytes
  pub time : ℕ
  pub script : Bytes
  pub ord : OrderView

pub record BlockView : Type 0 where
  pub height : ℕ
  pub prev_block_hash : Bytes
  pub miner : Bytes
  pub txs : List TransactionView
  pub root : Bytes
  pub version : ℕ
  pub timestamp : ℕ
  pub hash : Bytes
  pub first_tx : List MinerTx

-- The block of an answer for which none is found.
abbrev pub no_block_view : BlockView
no_block_view = record {
  height = 0;
  prev_block_hash = [];
  miner = [];
  txs = [];
  root = [];
  version = 0;
  timestamp = 0;
  hash = [];
  first_tx = [];
}

abbrev pub or_code : {A : Type 0} → ErrorCode → Outcome QueryError A → Outcome ErrorCode A
or_code c (ok a) = ok a
or_code c (err e) = err c
or_code c panic = panic

abbrev pub or_bad : {A : Type 0} → ErrorCode → Option A → Outcome ErrorCode A
or_bad c none = err c
or_bad c (some a) = ok a

module _ (hex : Hex) where
  -- With all of an order's fields.
  unfoldable pub order_view : Order → OrderView
  order_view o = record {
    id = o.id;
    address = o.address;
    price = o.price;
    hash = hex.encode o.hash;
    signature = hex.encode o.signature;
    ciphertext = hex.encode o.ciphertext;
    tradename = o.tradename;
    region = o.region;
  }

  -- As by hash, by address and by number.
  unfoldable pub transaction_view : Transaction → TransactionView
  transaction_view tx = record {
    nonce = tx.nonce;
    block_number = tx.block_number;
    amount = tx.amount;
    from = tx.from;
    to = tx.to;
    hash = hex.encode tx.hash;
    signature = hex.encode tx.signature;
    time = tx.time;
    script = tx.script;
    ord = order_view tx.ord;
  }

  -- In a page the order's name and region are left out, in the latest block the script too, and the
  -- transaction's block number is its block's height.
  unfoldable pub paged_view : Transaction → TransactionView
  paged_view tx = record (transaction_view tx) {
    ord = record (order_view tx.ord) { tradename = []; region = [] };
  }

  unfoldable pub latest_view : ℕ → Transaction → TransactionView
  latest_view height tx = record (paged_view tx) { script = []; block_number = height }

  unfoldable pub views : (Transaction → TransactionView) → List Transaction → List TransactionView
  views f [] = []
  views f (tx ∷ txs) = f tx ∷ views f txs

  unfoldable pub block_view : (Transaction → TransactionView) → Block → BlockView
  block_view f blk = record {
    height = blk.height;
    prev_block_hash = hex.encode blk.prev_block_hash;
    miner = blk.miner;
    txs = views f blk.txs;
    root = hex.encode blk.root;
    version = blk.version;
    timestamp = blk.timestamp;
    hash = hex.encode blk.hash;
    first_tx = blk.first_tx;
  }

-- JSON of a body, a block and a transaction: `none` is an error.
pub record Json : Type 0 where
  pub request : Bytes → Option ReqData
  pub sent_tx : Bytes → Option Transaction
  pub block : Bytes → Option Block
  pub tx : Bytes → Option Transaction

module _ (b : Badger) (it : Iterator b) (hex : Hex) (json : Json) where
  open b use {Txn, get}

  -- The loop of `GetBlock_FY`, from a height down; no block with transactions is no error.
  unfoldable pub latest_block : Txn → ℕ → Outcome ErrorCode BlockView
  latest_block s zero = ok no_block_view
  latest_block s (suc h) =
      let below = latest_block s h in
      or_code err_no_block_height (get_block_by_height b json.block s (suc h)) >>= λ blk.
      if length blk.txs == 0 then below else ok (block_view hex (latest_view hex blk.height) blk)

  -- `GetBlock_FY`
  unfoldable pub get_block_fy : Txn → Outcome ErrorCode BlockView
  get_block_fy s = or_code err_no_block (get_max_block_height b s) >>= latest_block s

  -- `GetMaxBlockNum`
  unfoldable pub get_max_block_num : Txn → Outcome ErrorCode ℕ
  get_max_block_num s = or_code err_no_block_height (get_max_block_height b s)

  -- `GetNonce`, and the chain after it: a missing nonce is written as 1. `commits` is whether that is
  -- committed.
  unfoldable pub chain_nonce : Txn → Bytes → Bool → Txn × Option ℕ
  chain_nonce s a commits =
      let v = mget b s nonce_map a in
      if is_value v
      then (s, fetched_word v)
      else (keep (if commits then mset b s nonce_map a (e64func 1) else none) s, some 1)

  abbrev nonce_answer : Txn → Bool → Option ReqData → Txn × Outcome ErrorCode ℕ
  nonce_answer s commits none = (s, err err_json)
  nonce_answer s commits (some req) =
      let (s', n) = chain_nonce s req.address commits in (s', or_bad err_no_nonce n)

  -- `getNonceHandler`
  unfoldable pub get_nonce_handler : Txn → Bytes → Bool → Txn × Outcome ErrorCode ℕ
  get_nonce_handler s body commits = nonce_answer s commits (json.request body)

  abbrev added : Txn × Outcome AddError Pool → Bytes → Txn × Outcome ErrorCode (Pool × Bytes)
  added (s, ok p) hash = (s, ok (p, hex.encode hash))
  added (s, err e) hash = (s, err err_tx)
  added (s, panic) hash = (s, panic)

  abbrev receive :
      (Bytes → Bytes → Bytes → Bool)
      → Bytes
      → Txn
      → Pool
      → Bool
      → ℕ
      → Option Transaction
      → Txn × Outcome ErrorCode (Pool × Bytes)
  receive ed25519 qtj s pool commits now none = (s, err err_json)
  receive ed25519 qtj s pool commits now (some tx) =
      if bytes_eq tx.from tx.to
      then (s, err err_data)
      else added (add b ed25519 qtj s pool tx commits now) tx.hash

  -- `RecepTx`: the chain and the pool after it, and the hash that is answered. What is taken is handed to
  -- the other nodes too.
  unfoldable pub recep_tx :
      (Bytes → Bytes → Bytes → Bool)
      → Bytes
      → Txn
      → Pool
      → Bytes
      → Bool
      → ℕ
      → Txn × Outcome ErrorCode (Pool × Bytes)
  recep_tx ed25519 qtj s pool body commits now =
      receive ed25519 qtj s pool commits now (json.sent_tx body)

  -- The loop of `GetTransactionByAddr` of blockchain/blockchain.go over the values.
  unfoldable pub decode_all : List (Bytes × Bytes) → Option (List Transaction)
  decode_all [] = some []
  decode_all ((k, v) ∷ kvs) =
      let rest = decode_all kvs in
      elim (json.tx v) [
        | none ↦ none
        | some tx ↦ elim rest [ none ↦ none | some txs ↦ some (tx ∷ txs) ]
      ]

  abbrev decoded_all :
      Bool → Outcome Fetch (List (Bytes × Bytes)) → Outcome QueryError (List Transaction)
  decoded_all commits (ok kvs) =
      json_of (decode_all kvs) >>= λ txs. if commits then ok txs else err QueryError.no_commit
  decoded_all commits (err e) = err no_value
  decoded_all commits panic = panic

  unfoldable pub get_transaction_by_addr :
      Txn → Bytes → Bool → Outcome QueryError (List Transaction)
  get_transaction_by_addr s addr commits = decoded_all commits (mkvs b it s addr)

  -- `GetTransactionbyAddr`; an empty list is an error.
  unfoldable pub transactions_by_addr :
      Txn → Bytes → Bool → Outcome ErrorCode (List TransactionView)
  transactions_by_addr s body commits = do
    req ← or_bad err_json (json.request body)
    txs ← or_code err_no_transaction (get_transaction_by_addr s req.address commits)
    fail_if (length txs == 0) err_no_transaction
    ok (views hex (transaction_view hex) txs)

  -- `GetTransactionbyhash`
  unfoldable pub transaction_by_hash : Txn → Bytes → Outcome ErrorCode TransactionView
  transaction_by_hash s body = do
    req ← or_bad err_json (json.request body)
    hash ← or_bad err_data (hex.decode req.hash)
    tx ← or_code err_no_tx_by_hash (get_transaction b json.tx s hash)
    ok (transaction_view hex tx)

  -- `GetBalancebyAddr`, which answers 0 for what it cannot read.
  unfoldable pub balance_by_addr : Txn → Bytes → Bool → Outcome ErrorCode ℕ
  balance_by_addr s body commits = do
    req ← or_bad err_json (json.request body)
    ok (if commits then or_zero (fetched_word (get s req.address)) else 0)

  -- `GetBlockbyNum`
  unfoldable pub block_by_num : Txn → Bytes → Outcome ErrorCode BlockView
  block_by_num s body = do
    req ← or_bad err_json (json.request body)
    blk ← or_code err_no_block (get_block_by_height b json.block s req.num)
    ok (block_view hex (transaction_view hex) blk)

  -- The loop of `GetBlockbyNum_FY`: so many blocks from a height down, up to the first that is not read.
  unfoldable pub page_blocks : Txn → ℕ → ℕ → List BlockView
  page_blocks s zero i = []
  page_blocks s (suc n) zero = []
  page_blocks s (suc n) (suc i) =
      let rest = page_blocks s n i in
      elim (get_block_by_height b json.block s (suc i)) [
        | ok blk ↦ block_view hex (paged_view hex) blk ∷ rest
        | err e ↦ []
        | panic ↦ []
      ]

  -- `GetBlockbyNum_FY`: the number of blocks, and the page.
  unfoldable pub block_by_num_fy : Txn → Bytes → Outcome ErrorCode (ℕ × List BlockView)
  block_by_num_fy s body = do
    req ← or_bad err_json (json.request body)
    fail_if (lt_i64 req.num 0 || lt_i64 req.page 0) err_data
    max ← or_code err_no_block_height (get_max_block_height b s)
    let from = sub_u64 max ((sub_u64 req.page 1 * req.num) % 2 ^ 64)
    fail_if (from == 0 || lt_i64 from 0) err_data
    ok (max, page_blocks s req.num from)
