-- ===== src/Chain/Transfers.antt =====
-- Single transactions: what is conserved, and where it is not.
use raft_project.Common.{ℕ, ◌+◌, ◌^◌, ◌≤◌, ◌<◌, ◌≡◌, ◌≢◌, refl, Option, some, arith}
use raft_project.Common.Tests.{◌==◌, if◌then◌else◌}
use raft_project.Common.Lists.{Bytes, bytes_eq_iff, length}
use raft_project.Common.Outcome.{Outcome, ok, err, panic}
use raft_project.Store.{Badger}
use raft_project.Transaction.{Transaction}
use raft_project.Contract.Exec.{Db}
use raft_project.Chain.{set_account}
use raft_project.Chain.Accounts.{IsAddress, balance_of, set_account_lem}
use raft_project.Chain.Block.{Blocks, AddBlockError, Contracts, add_transaction}
use raft_project.Chain.Block.Applied.{Result, add_transaction_lem}
use raft_project.Chain.Block.Ledger.{IsScripted, settle}
use raft_project.Store.{Willing}

module _ (b : Badger) (w : Willing b) (s : b.Txn) (miner : Bytes) (tx : Transaction) where
  -- What the miner is paid: a fee is given to it only for a transaction with a script.
  abbrev pub paid_fee : ℕ
  paid_fee = if length tx.script == 0 then 0 else tx.fee

  -- The sender has paid the amount and the fee, and the receiver and the miner have what is theirs:
  -- the three balances keep their sum, less a fee that nobody is paid.
  abbrev pub Conserved : Outcome AddBlockError b.Txn → Type 0
  Conserved (ok s') =
      (balance_of b w s' tx.from + tx.amount + tx.fee ≡ balance_of b w s tx.from)
      × (balance_of b w s' tx.to ≡ balance_of b w s tx.to + tx.amount)
      × (balance_of b w s' miner ≡ balance_of b w s miner + paid_fee)
      × (balance_of b w s' tx.from + balance_of b w s' tx.to + balance_of b w s' miner + tx.fee
          ≡ balance_of b w s tx.from + balance_of b w s tx.to + balance_of b w s miner + paid_fee)
  Conserved (err e) = ⊥
  Conserved panic = IsScripted tx

  module _ (ft : tx.from ≢ tx.to) (fm : tx.from ≢ miner) (tm : tx.to ≢ miner)
      (small : balance_of b w s tx.from < 2 ^ 64)
      (covered : tx.amount + tx.fee ≤ balance_of b w s tx.from)
      (room_to : balance_of b w s tx.to + tx.amount < 2 ^ 64)
      (room_miner : balance_of b w s miner + tx.fee < 2 ^ 64) where
    -- Accounts, which are none of the transaction's hash.
    abbrev Named : Bytes → Type 0
    Named j = IsAddress j × (tx.hash ≢ j)

    settle-sums :
        (settle miner tx (balance_of b w s) tx.from + tx.amount + tx.fee ≡ balance_of b w s tx.from)
        × (settle miner tx (balance_of b w s) tx.to ≡ balance_of b w s tx.to + tx.amount)
        × (settle miner tx (balance_of b w s) miner ≡ balance_of b w s miner + paid_fee)
    settle-sums = (
      ground (
        arith,
        bytes_eq_iff tx.to tx.from,
        bytes_eq_iff tx.from tx.from,
        bytes_eq_iff miner tx.from,
      ),
      ground (arith, bytes_eq_iff tx.to tx.to, bytes_eq_iff miner tx.to),
      ground
          (arith, bytes_eq_iff tx.to miner, bytes_eq_iff tx.from miner, bytes_eq_iff miner miner),
    )

    conserved :
        (r : Outcome AddBlockError b.Txn)
        → Named tx.from
        → Named tx.to
        → Named miner
        → Result b w Named (IsScripted tx) (settle miner tx (balance_of b w s)) r
        → Conserved r
    conserved (ok s') from to mine agree =
        let (at_from, at_to, at_miner) = settle-sums in
        let one = agree tx.from from in
        let two = agree tx.to to in
        let three = agree miner mine in
        (
          rw one at_from,
          rw two at_to,
          rw three at_miner,
          omega (arith, one, two, three, at_from, at_to, at_miner),
        )
    conserved (err e) from to mine agree = agree
    conserved panic from to mine agree = agree

    -- What `AddBlock` does for one transaction gives no error, and panics only if the transaction
    -- has a script. Otherwise the sender pays the amount and the fee, the receiver gets the amount,
    -- and the miner gets the fee of a transaction with a script, and nobody that of one without:
    -- the three balances keep their sum, less such a fee. The store takes every write and deletion,
    -- and transactions can be marshalled. The sender, the receiver and the miner are three
    -- addresses that start with 'K' and are not spelled like the transaction's hash; the sender's
    -- balance is below 2^64 and covers the amount and the fee, and the receiver's with the amount
    -- and the miner's with the fee stay below 2^64.
    pub transaction_conserves :
        (to_json : Transaction → Option Bytes)
        → ((tx : Transaction) → (text : Bytes) × (to_json tx ≡ some text))
        → (c : Contracts) (blk : Blocks) (h : ℕ) (db : Db) → IsAddress tx.from × (tx.hash ≢ tx.from)
        → IsAddress tx.to × (tx.hash ≢ tx.to)
        → IsAddress miner × (tx.hash ≢ miner)
        → Conserved (add_transaction b to_json c miner blk h db s tx).1
    transaction_conserves to_json marshals c blk h db from to mine =
        conserved (add_transaction b to_json c miner blk h db s tx).1 from to mine (
          add_transaction_lem b w to_json marshals Named (λ j n. n.0) c miner blk h db s
            (balance_of b w s) tx mine from to (λ j n. n.1) (λ j n. refl))

module _ (b : Badger) (w : Willing b) (s : b.Txn) (from : Bytes) (amount nonce fee : ℕ)
    (from_address : IsAddress from) where
  -- On a store that takes every write and deletion, a transaction of an account to itself raises
  -- its balance by the amount, whether or not it has it, and takes no fee from it. The balance and
  -- the amount are together below 2^64, and the address starts with 'K'.
  pub self_transaction_mints :
      balance_of b w s from + amount < 2 ^ 64
      → balance_of b w (set_account b s from from amount nonce fee) from
        ≡ balance_of b w s from + amount
  self_transaction_mints room = ground (
    arith,
    set_account_lem b w s from from amount nonce fee from from_address,
    bytes_eq_iff from from,
  )

  -- On a store that takes every write and deletion, a transaction to another account that has the
  -- amount, but not the fee on top of it, leaves the sender with 2^64 more than the balance less
  -- the two: it wraps round. The balance and the fee are below 2^64, and the sender's address
  -- starts with 'K'.
  pub uncovered_fee_wraps :
      (to : Bytes)
      → to ≢ from
      → fee < 2 ^ 64
      → balance_of b w s from < 2 ^ 64
      → amount ≤ balance_of b w s from
      → balance_of b w s from < amount + fee
      → balance_of b w (set_account b s from to amount nonce fee) from + amount + fee
        ≡ balance_of b w s from + 2 ^ 64
  uncovered_fee_wraps to apart fits small enough short = ground (
    arith,
    set_account_lem b w s from to amount nonce fee from from_address,
    bytes_eq_iff to from,
    bytes_eq_iff from from,
  )
