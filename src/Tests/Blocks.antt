-- ===== src/Tests/Blocks.antt =====
-- The theorems on blocks at concrete inputs.
use raft_project.Common.{
  ℕ, ◌+◌, ◌≡◌, ◌≢◌, refl, ap, true, false, Bool, none, some, List, [], ◌∷◌, ◌++◌, arith,
}
use raft_project.Common.Lists.{Bytes, codes, length, bytes_eq-false→ne}
use raft_project.Common.Outcome.{ok}
use raft_project.Common.Dict.{Dict}
use raft_project.Codec.{e64func}
use raft_project.Transaction.{Transaction}
use raft_project.Store.{e_map_key, not_exist}
use raft_project.Contract.Exec.{Db}
use raft_project.Chain.Accounts.{balance_of}
use raft_project.Chain.Distr.{MinerTx, shares, reward}
use raft_project.Chain.Block.{Block, Blocks, Contracts, add_block}
use raft_project.Chain.Block.Ledger.{HasScript, credit_all, settle_all}
use raft_project.Chain.Block.Applied.{IsAccount, Result, add_block_lem}
use raft_project.Chain.Results.{block_change, calculation_results, check_results}
use raft_project.Chain.Results.Unchecked.{check_results_ignores_res, check_results_ignores_payee}
use raft_project.Chain.Queries.{get_transaction, get_transaction_height}
use raft_project.Chain.Queries.Stored.{new_block_passes}
use raft_project.Tests.Store.{disk, willing}
use raft_project.Tests.Pool.{sent, zeros}

-- Addresses of 47 bytes.
abbrev ones : Bytes
ones = codes "1111111111111111111111111111111111111111111"

abbrev payer : Bytes
payer = codes "Kto" ++ (codes "2" ++ ones)

abbrev payee : Bytes
payee = codes "Kto" ++ (codes "3" ++ ones)

abbrev moved : Transaction
moved = record (sent 1 5) { from = payer; to = payee; hash = codes "h" }

abbrev block : Blocks
block = record {
  height = 7;
  prev_block_hash = [];
  txs = moved ∷ [];
  root = [];
  version = 1;
  timestamp = 5;
  hash = codes "b";
  miner = payer;
  res = [];
  first_tx = record { amount = 9; rec_address = payee } ∷ [];
}

abbrev store : Dict Bytes
unfolding e64func
store = (codes "height", e64func 6) ∷ (payer, e64func 700000) ∷ []

abbrev contracts : Contracts
contracts = record { accepts = λ k v. true; commits = true }

abbrev no_tokens : Db
no_tokens k = not_exist

payer-IsAccount : IsAccount block payer
payer-IsAccount = (
  refl,
  (λ e. omega (arith, e)),
  (λ e. omega (arith, ap length e)),
  ((λ e. omega (arith, ap length e)), tt),
)

payee-IsAccount : IsAccount block payee
payee-IsAccount = (
  refl,
  (λ e. omega (arith, e)),
  (λ e. omega (arith, ap length e)),
  ((λ e. omega (arith, ap length e)), tt),
)

add_block_lem_example :
    Result disk willing
      (IsAccount block)
      (HasScript block.txs)
      (settle_all payer block.txs (credit_all block.first_tx (balance_of disk willing store)))
      (add_block disk (λ tx. some []) contracts (λ blk. []) true payer block no_tokens store).1
unfolding raft_project.Common.Dict.lookup store raft_project.Common.Lists.bytes_eq
add_block_lem_example =
    add_block_lem disk willing (λ tx. some []) (λ tx. ([], refl)) contracts (λ blk. []) payer
      (e64func 6) block no_tokens store refl refl payer-IsAccount (payee-IsAccount, tt)
      ((payer-IsAccount, payee-IsAccount), tt)

abbrev never_signed : Bytes → Bytes → Bytes → Bool
never_signed key hash signature = false

abbrev same_hash : Bytes → Bytes
same_hash x = x

abbrev fund : Bytes
fund = codes "Kto11111111111111111111111111111111"

check_results_ignores_res_example :
    check_results disk same_hash never_signed store no_tokens
      (record block { res = (payee, 12345) ∷ [] })
      fund
      fund
      fund
    ≡ check_results disk same_hash never_signed store no_tokens block fund fund fund
check_results_ignores_res_example =
    check_results_ignores_res disk same_hash never_signed store no_tokens block
      ((payee, 12345) ∷ []) fund fund fund

abbrev due : List MinerTx
due = shares never_signed block.txs payer fund fund zeros (reward 7)

check_results_ignores_payee_example :
    check_results disk same_hash never_signed store no_tokens
      (record block {
        first_tx = block.first_tx ++ record { amount = 1000; rec_address = payee } ∷ [];
      })
      fund
      fund
      fund
    ≡ check_results disk same_hash never_signed store no_tokens block fund fund fund
unfolding raft_project.Chain.Distr.distr raft_project.Base58.addr_to_pub
    raft_project.Chain.Distr.some_signed shares raft_project.Chain.Distr.count_orders
    raft_project.Common.Lists.bytes_eq
check_results_ignores_payee_example =
    check_results_ignores_payee disk same_hash never_signed store no_tokens block
      (record { amount = 1000; rec_address = payee }) fund fund fund due refl
      (
        bytes_eq-false→ne payee fund refl,
        (bytes_eq-false→ne payee payer refl, (bytes_eq-false→ne payee fund refl, tt)),
      )

abbrev paying : Blocks
paying = record block { first_tx = due }

-- A stored block, on which one is made.
abbrev grown : Dict Bytes
unfolding e_map_key e64func
grown = (e_map_key (e64func 6) (codes "hash"), codes "p") ∷ store

abbrev made : Block
made = record {
  height = 7;
  prev_block_hash = codes "p";
  txs = record moved { block_number = 7 } ∷ [];
  root = codes "r";
  version = 1;
  timestamp = 8;
  hash = codes "n";
  miner = payer;
  txres = [];
  first_tx = due;
}

abbrev root_hash : Bytes → Bytes
root_hash x = codes "r"

abbrev block_hash : Bytes → Bytes
block_hash x = codes "n"

new_block_passes_example :
    check_results disk block_hash never_signed store no_tokens
      (block_change (calculation_results disk block_hash grown made))
      fund
      fund
      fund
    ≡ ok true
unfolding raft_project.Chain.Queries.new_block raft_project.Chain.Queries.height
    raft_project.Common.Dict.lookup grown raft_project.Common.Lists.bytes_eq
    raft_project.Codec.d64func raft_project.Merkle.new raft_project.Chain.Queries.texts
    raft_project.Chain.Queries.numbered raft_project.Merkle.mk_merkle_tree_root
    raft_project.Merkle.first_leaf raft_project.Merkle.get_mt_hash raft_project.Merkle.mk_leaf
    raft_project.Store.mget raft_project.Codec.e32func raft_project.Chain.Distr.distr
    raft_project.Base58.addr_to_pub raft_project.Base58.big_bytes raft_project.Base58.decode
    raft_project.Base58.decode_digits raft_project.Base58.digit raft_project.Base58.leading_ones
    raft_project.Chain.Distr.count_orders raft_project.Chain.Distr.has_order
    raft_project.Chain.Distr.is_signed raft_project.Chain.Distr.lowered
    raft_project.Chain.Distr.order_shares reward shares raft_project.Chain.Distr.some_signed
    raft_project.Chain.Queries.set_hash raft_project.Codec.decode_at e64func
    raft_project.Codec.le_decode raft_project.Codec.le_encode raft_project.Merkle.mk_branch
    raft_project.Merkle.power_of_two raft_project.Merkle.power_of_two0 e_map_key store due
new_block_passes_example =
    new_block_passes disk root_hash block_hash never_signed (λ tx. codes "x") (λ txs. []) grown
      store no_tokens true 8 (moved ∷ []) payer fund fund fund made (refl, tt) refl
