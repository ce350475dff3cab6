-- ===== src/Chain/Block.antt =====
-- Blocks: block/types.go, and `AddBlock` of blockchain/blockchain.go with what it calls. JSON, and with
-- it `ToBytes` of a block, is not part of the repository.
pub mod Ledger
pub mod Applied
use raft_project.Common.{
  ℕ, ◌+◌, ◌%◌, ◌^◌, Bool, true, false, Option, none, some, List, [], ◌∷◌, ◌++◌,
}
use raft_project.Common.Tests.{◌==◌, if◌then◌else◌}
use raft_project.Common.Lists.{Bytes, codes, length}
use raft_project.Common.Outcome.{Outcome, ok, err, panic, ◌>>=◌, and_then}
use raft_project.Common.Dict.{Dict}
use raft_project.Codec.{e64func}
use raft_project.Store.{Badger, Fetch, found, not_exist, failed, mset}
use raft_project.Transaction.{Transaction}
use raft_project.Contract.Script.{Script}
use raft_project.Contract.Operate.{OperateError}
use raft_project.Contract.Grammar.{parser}
use raft_project.Contract.Exec.{Db, Changes, ExecError, new, flush}
use raft_project.Chain.{add_u64, keep, u64_or_zero, set_account, set_miner_account, set_miner_fee}
use raft_project.Chain.Distr.{MinerTx}

-- `Blocks`, as it goes between nodes: `res` is the list of the balances that its sender computed.
pub record Blocks : Type 0 where
  pub height : ℕ
  pub prev_block_hash : Bytes
  pub txs : List Transaction
  pub root : Bytes
  pub version : ℕ
  pub timestamp : ℕ
  pub hash : Bytes
  pub miner : Bytes
  pub res : List (Bytes × ℕ)
  pub first_tx : List MinerTx

-- `Block`, with these balances in a map.
pub record Block : Type 0 where
  pub height : ℕ
  pub prev_block_hash : Bytes
  pub txs : List Transaction
  pub root : Bytes
  pub version : ℕ
  pub timestamp : ℕ
  pub hash : Bytes
  pub miner : Bytes
  pub txres : Dict ℕ
  pub first_tx : List MinerTx

-- The only error that is told apart: what `AddBlock` returns.
pub data AddBlockError : Type 0 where
  refused : AddBlockError

abbrev pub or_refused : {A : Type 0} → Option A → Outcome AddBlockError A
or_refused none = err refused
or_refused (some a) = ok a

-- What the contract database does with an execution's changes.
pub record Contracts : Type 0 where
  pub accepts : Bytes → Bytes → Bool
  pub commits : Bool

-- What is left after `Flush`: `Errmsg` is set if it fails.
abbrev pub settled : Db → Transaction → Outcome ExecError Db → Db × Transaction
settled db tx (ok db') = (db', tx)
settled db tx (err e) = (db, record tx { errmsg = codes "flush code is failed" })
settled db tx panic = (db, tx)

-- The script of a transaction; `none` is a panic. If `exec.New` fails it gives nil, and `Flush` panics
-- on that.
abbrev pub executed : Outcome OperateError (List (Option Script)) → Db → Bytes → Option Changes
executed panic db owner = none
executed (err e) db owner = none
executed (ok scs) db owner = elim (new db scs owner) [
  | ok mp ↦ some mp
  | err e ↦ none
  | panic ↦ none
]

unfoldable pub run_script : Contracts → Db → Transaction → Option (Db × Transaction)
run_script c db tx =
    and_then (executed (parser tx.script) db tx.from)
      (λ mp. some (settled db tx (flush c.accepts c.commits mp db)))

-- What comes after a success, in the contract database that it left.
abbrev pub on_ok :
    {A : Type 0}
    → Db × Outcome AddBlockError A
    → (Db → A → Db × Outcome AddBlockError A)
    → Db × Outcome AddBlockError A
on_ok (db, ok a) f = f db a
on_ok (db, err e) f = (db, err e)
on_ok (db, panic) f = (db, panic)

module _ (b : Badger) (to_json : Transaction → Option Bytes) where
  open b use {Txn, get, put, delete}

  -- `setTxbyaddr`
  unfoldable pub set_tx_by_addr : Txn → Bytes → Transaction → Option Txn
  set_tx_by_addr s addr tx = and_then (to_json tx) (λ text. mset b s addr tx.hash text)

  -- `setBlockdata`, whose error is ignored: what it wrote before it stays.
  unfoldable pub set_block_data : Txn → Bytes → Bytes → Bytes → Bytes → Txn
  set_block_data s block_hash tx_hash tx_data h = elim (mset b s block_hash tx_hash tx_data) [
    | none ↦ s
    | some s1 ↦ elim (mset b s1 tx_hash tx_data h) [
      | none ↦ s1
      | some s2 ↦ keep (put s2 tx_hash tx_data) s2
    ]
  ]

  -- The body of the loop over the transactions, after the script.
  unfoldable pub add_account : Blocks → ℕ → Txn → Transaction → Option Txn
  add_account blk h s tx = and_then (set_tx_by_addr s tx.from tx) (λ s1.
      and_then (set_tx_by_addr s1 tx.to tx) (λ s2.
        let s3 = set_account b s2 tx.from tx.to tx.amount tx.nonce tx.fee in
        and_then (to_json tx) (λ text. some (set_block_data s3 blk.hash tx.hash text (e64func h)))))

  -- One transaction, with its fee and its script if it has one. The contract database keeps what a
  -- script has written whatever becomes of the block.
  unfoldable pub add_scripted :
      Bytes → Blocks → ℕ → Db → Txn → Option (Db × Transaction) → Db × Outcome AddBlockError Txn
  add_scripted minaddr blk h db s none = (db, panic)
  add_scripted minaddr blk h db s (some (db', tx)) =
      (db', or_refused (add_account blk h (set_miner_fee b s minaddr tx.fee) tx))

  unfoldable pub add_transaction :
      Contracts → Bytes → Blocks → ℕ → Db → Txn → Transaction → Db × Outcome AddBlockError Txn
  add_transaction c minaddr blk h db s tx =
      if length tx.script == 0
      then (db, or_refused (add_account blk h s tx))
      else add_scripted minaddr blk h db s (run_script c db tx)

  unfoldable pub add_transactions :
      Contracts → Bytes → Blocks → ℕ → List Transaction → Db → Txn → Db × Outcome AddBlockError Txn
  add_transactions c minaddr blk h [] db s = (db, ok s)
  add_transactions c minaddr blk h (tx ∷ txs) db s =
      on_ok (add_transaction c minaddr blk h db s tx) (add_transactions c minaddr blk h txs)

  unfoldable pub pay_miners : List MinerTx → Txn → Txn
  pay_miners [] s = s
  pay_miners (m ∷ ms) s = pay_miners ms (set_miner_account b s m.rec_address m.amount)

  -- The writes about the block itself, from the stored height `v`.
  unfoldable pub add_header : (Blocks → Bytes) → Blocks → Bytes → ℕ → Txn → Option Txn
  add_header to_bytes blk v h s = and_then (mset b s (e64func h) (codes "hash") blk.hash) (λ s1.
      and_then (put s1 blk.hash (to_bytes blk)) (λ s2.
        and_then (put s2 v (e64func (add_u64 h 1))) (λ s3.
          let s4 = keep (delete s3 (codes "height")) s3 in
          some (keep (put s4 (codes "height") (e64func h)) s4))))

  -- `AddBlock`. The state of the chain is the one after a commit; without one it is not changed.
  unfoldable pub add_block :
      Contracts
      → (Blocks → Bytes)
      → Bool
      → Bytes
      → Blocks
      → Db
      → Txn
      → Db × Outcome AddBlockError Txn
  add_block c to_bytes commits minaddr blk db s = elim (get s (codes "height")) [
    | not_exist ↦ (db, err refused)
    | failed ↦ (db, err refused)
    | found v ↦
        let h = add_u64 (u64_or_zero v) 1 in
        on_ok (db, or_refused (add_header to_bytes blk v h s))
          (λ db1 s1.
            on_ok (add_transactions c minaddr blk h blk.txs db1 (pay_miners blk.first_tx s1))
              (λ db2 s2. (db2, if commits then ok s2 else err refused)))
  ]
