-- ===== src/Chain/Results.antt =====
-- `Calculationresults`, `Checkresults` and `blocks_change` of blockchain/blockchain.go.
pub mod Unchecked
pub mod Accepted
use raft_project.Common.{
  ℕ, ◌+◌, ◌%◌, ◌^◌, Bool, true, false, not, ◌&&◌, Option, none, some, List, [], ◌∷◌, ◌++◌,
}
use raft_project.Common.Tests.{◌==◌, if◌then◌else◌}
use raft_project.Common.Lists.{Bytes, bytes_eq, length}
use raft_project.Common.Outcome.{Outcome, ok, err, panic, ◌>>=◌, or_panic}
use raft_project.Common.Dict.{Dict, lookup, insert}
use raft_project.Store.{Badger}
use raft_project.Transaction.{Transaction}
use raft_project.Contract.Grammar.{parser}
use raft_project.Contract.Exec.{Db, Changes}
use raft_project.Contract.Exec.Root.{root}
use raft_project.Chain.{add_u64, sub_u64}
use raft_project.Chain.Distr.{MinerTx, distr}
use raft_project.Chain.Locks.{get_balance}
use raft_project.Chain.Block.{Blocks, Block, executed}

-- `Txres` from the list of the balances.
unfoldable pub results_map : List (Bytes × ℕ) → Dict ℕ → Dict ℕ
results_map [] m = m
results_map ((addr, n) ∷ rs) m = results_map rs (insert addr n m)

unfoldable pub blocks_change : Blocks → Block
blocks_change blk = record {
  height = blk.height;
  prev_block_hash = blk.prev_block_hash;
  txs = blk.txs;
  root = blk.root;
  version = blk.version;
  timestamp = blk.timestamp;
  hash = blk.hash;
  miner = blk.miner;
  txres = results_map blk.res [];
  first_tx = blk.first_tx;
}

-- `block_change` of raftconsensus/node.go, which makes of a block what is sent to the other nodes. Go
-- gives the entries of a map in any order.
unfoldable pub block_change : Block → Blocks
block_change blk = record {
  height = blk.height;
  prev_block_hash = blk.prev_block_hash;
  txs = blk.txs;
  root = blk.root;
  version = blk.version;
  timestamp = blk.timestamp;
  hash = blk.hash;
  miner = blk.miner;
  res = blk.txres;
  first_tx = blk.first_tx;
}

-- A sender's balance after a transaction, from the map or else from the chain.
abbrev pub lowered_result : Transaction → ℕ → Option ℕ → ℕ
lowered_result tx stored none = sub_u64 stored tx.amount
lowered_result tx stored (some bal) =
    if length tx.script == 0 then sub_u64 bal tx.amount else sub_u64 (sub_u64 bal tx.amount) tx.fee

abbrev pub raised_result : Transaction → ℕ → Option ℕ → ℕ
raised_result tx stored none = add_u64 stored tx.amount
raised_result tx stored (some bal) = add_u64 bal tx.amount

abbrev pub paid_to : MinerTx → Dict ℕ → Option ℕ → Dict ℕ
paid_to p m none = insert p.rec_address p.amount m
paid_to p m (some n) = insert p.rec_address (add_u64 n p.amount) m

abbrev pub add_payment : MinerTx → Dict ℕ → Dict ℕ
add_payment p m = paid_to p m (lookup p.rec_address m)

-- `maptx` and `oldmaptx`: what each address is paid.
unfoldable pub payments : List MinerTx → Dict ℕ → Dict ℕ
payments [] m = m
payments (p ∷ ps) m = payments ps (add_payment p m)

abbrev pub count_of : Option ℕ → ℕ
count_of none = 0
count_of (some n) = n

-- The comparison of the payments, over the keys of the first map.
unfoldable pub same_payments : Dict ℕ → Dict ℕ → Bool
same_payments [] old = true
same_payments ((addr, n) ∷ m) old = n == count_of (lookup addr old) && same_payments m old

-- A check ends in its verdict, or in a panic.
pub data Fault : Type 0 where
  fault : Fault

abbrev pub is_some : Option ℕ → Bool
is_some none = false
is_some (some n) = true

abbrev pub same_result : Option ℕ → Option ℕ → Bool
same_result r r' = count_of r == count_of r'

abbrev pub or_fault : Outcome Bytes Bytes → Outcome Fault Bytes
or_fault (ok x) = ok x
or_fault (err e) = panic
or_fault panic = panic

module _ (b : Badger) (sha3 : Bytes → Bytes) where
  open b use {Txn}

  unfoldable pub calculate : Txn → List Transaction → Dict ℕ → Dict ℕ
  calculate s [] m = m
  calculate s (tx ∷ txs) m =
      let m1 = insert tx.from (lowered_result tx (get_balance b s tx.from) (lookup tx.from m)) m in
      calculate s txs (insert tx.to (raised_result tx (get_balance b s tx.to) (lookup tx.to m1)) m1)

  unfoldable pub calculation_results : Txn → Block → Block
  calculation_results s blk = record blk { txres = calculate s blk.txs blk.txres }

  -- The root that a transaction's script comes to, against the one that it states; `exec.New` gives nil
  -- for a script that fails, and `Root` panics on that.
  unfoldable pub check_script : Db → Transaction → Outcome Fault Bool
  check_script db tx =
      let checked = (do
        mp ← or_panic (executed (parser tx.script) db tx.from)
        ert ← or_fault (root sha3 mp)
        ok (bytes_eq tx.root ert)) in
      if length tx.script == 0 then ok true else checked

  -- The loop over the transactions. `computed` and `claimed` are `bres.Txres` and `brs.Txres`.
  unfoldable pub check_transactions : Db → Dict ℕ → Dict ℕ → List Transaction → Outcome Fault Bool
  check_transactions db computed claimed [] = ok true
  check_transactions db computed claimed (tx ∷ txs) =
      let rest = check_transactions db computed claimed txs in
      let same =
        is_some (lookup tx.from claimed)
        && (is_some (lookup tx.to claimed)
            && (same_result (lookup tx.from computed) (lookup tx.from claimed)
                && same_result (lookup tx.to computed) (lookup tx.to claimed))) in
      check_script db tx >>= λ sound. if sound && same then rest else ok false

  -- `Checkresults`. `Calculationresults` changes the block that it is given and returns it, so both maps
  -- that are compared are the one that it has computed.
  unfoldable pub check_results :
      (Bytes → Bytes → Bytes → Bool)
      → Txn
      → Db
      → Blocks
      → Bytes
      → Bytes
      → Bytes
      → Outcome Fault Bool
  check_results verify s db rbl ds cm qtj = do
    let computed = calculation_results s (blocks_change rbl)
    sound ← check_transactions db computed.txres computed.txres computed.txs
    if sound
        then (do
          mtx ← or_panic (distr verify rbl.txs rbl.miner ds cm qtj rbl.height)
          ok (same_payments (payments mtx []) (payments rbl.first_tx [])))
        else ok false
