-- ===== src/Tests/Chain.antt =====
-- The account theorems at concrete inputs.
use raft_project.Common.{
  ◌+◌, ◌*◌, ◌/◌, ◌-◌, ◌%◌, ◌^◌, ◌≤◌, ◌<◌, ◌≡◌, ◌≢◌, refl, ap, Bool, true, false, some, List, [],
  ◌∷◌, ◌++◌, arith,
}
use raft_project.Common.Lists.{Bytes, bytes_eq, bytes_eq-false→ne, codes, count}
use raft_project.Common.Dict.{Dict, insert}
use raft_project.Codec.{e64func}
use raft_project.Store.{e_map_key, mget, not_exist}
use raft_project.Base58.{addr_to_pub}
use raft_project.Transaction.{Transaction, Order}
use raft_project.Chain.{set_account, lock_map, fetched_u64}
use raft_project.Chain.Accounts.{balance_of, nonce_of, set_account_lem}
use raft_project.Chain.Transfers.{
  Conserved, transaction_conserves, self_transaction_mints, uncovered_fee_wraps,
}
use raft_project.Chain.Block.{Blocks, add_transaction}
use raft_project.Chain.Distr.{distr, reward, MinerTx}
use raft_project.Chain.Distr.Shares.{sum, paid, sold_to, due_others, distr_shares}
use raft_project.Chain.Locks.{get_balance, get_lock_balance, lock_balance}
use raft_project.Chain.Locks.Limits.{lock_balance_lem}
use raft_project.Tests.Store.{disk, willing}

abbrev alice : Bytes
alice = codes "Ktoa"

abbrev bob : Bytes
bob = codes "Ktob"

abbrev miner : Bytes
miner = codes "Ktom"

-- Alice has 100, of which 20 are locked, and Bob 5.
abbrev chain : Dict Bytes
chain = (alice, e64func 100) ∷ (bob, e64func 5) ∷ (e_map_key lock_map alice, e64func 20) ∷ []

set_account_lem_example :
    (balance_of disk willing (set_account disk chain alice bob 30 1 2) bob ≡ 35)
    × (nonce_of disk willing (set_account disk chain alice bob 30 1 2) alice ≡ 2)
unfolding bytes_eq fetched_u64 raft_project.Common.Dict.lookup e64func raft_project.Codec.le_decode
set_account_lem_example = set_account_lem disk willing chain alice bob 30 1 2 bob refl

self_transaction_mints_example :
    balance_of disk willing (set_account disk chain alice alice 30 1 2) alice ≡ 130
unfolding fetched_u64 raft_project.Common.Dict.lookup bytes_eq e64func raft_project.Codec.le_decode
self_transaction_mints_example =
    self_transaction_mints disk willing chain alice 30 1 2 refl (omega arith)

uncovered_fee_wraps_example :
    balance_of disk willing (set_account disk chain alice bob 90 1 20) alice + 90 + 20
    ≡ 100 + 2 ^ 64
unfolding bytes_eq fetched_u64 raft_project.Common.Dict.lookup e64func raft_project.Codec.le_decode
uncovered_fee_wraps_example =
    uncovered_fee_wraps disk willing chain alice 90 1 20 refl bob (bytes_eq-false→ne bob alice refl)
      (omega arith) (omega arith) (omega arith) (omega arith)

lock_balance_lem_example :
    let (s', done) = lock_balance disk chain alice 60 true in
    (done ≡ true)
    × (get_lock_balance disk s' alice ≡ 80)
    × (get_balance disk s' alice ≡ 100)
    × (get_lock_balance disk s' alice ≤ get_balance disk s' alice)
unfolding get_lock_balance get_balance fetched_u64 mget raft_project.Common.Dict.lookup bytes_eq
    e_map_key e64func raft_project.Codec.e32func raft_project.Codec.le_decode
lock_balance_lem_example =
    lock_balance_lem disk willing chain alice 60 refl (omega arith) (omega arith) (omega arith) true

abbrev no_order : Order
no_order = record {
  id = [];
  address = [];
  price = 0;
  hash = [];
  ciphertext = [];
  signature = [];
  tradename = [];
  region = [];
}

abbrev sale : Order
sale = record {
  id = [];
  address = bob;
  price = 5;
  hash = 1 ∷ [];
  ciphertext = [];
  signature = 2 ∷ [];
  tradename = [];
  region = [];
}

abbrev buying : Transaction
buying = record {
  nonce = 1;
  block_number = 0;
  amount = 500000;
  from = alice;
  to = bob;
  hash = [];
  signature = [];
  time = 0;
  fee = 0;
  root = [];
  script = [];
  ord = sale;
  errmsg = [];
}

-- An address of 32 leading ones, which decodes to 32 zeros.
abbrev shop : Bytes
shop = codes "Kto11111111111111111111111111111111"

abbrev zeros : Bytes
zeros =
    0 ∷ 0 ∷ 0 ∷ 0 ∷ 0 ∷ 0 ∷ 0 ∷ 0 ∷ 0 ∷ 0 ∷ 0 ∷ 0 ∷ 0 ∷ 0 ∷ 0 ∷ 0 ∷ 0 ∷ 0 ∷ 0 ∷ 0 ∷ 0 ∷ 0 ∷ 0 ∷ 0
    ∷ 0 ∷ 0 ∷ 0 ∷ 0 ∷ 0 ∷ 0 ∷ 0 ∷ 0 ∷ []

-- One of two orders is signed.
abbrev signed : Bytes → Bytes → Bytes → Bool
signed key hash signature = bytes_eq signature (2 ∷ [])

abbrev two_orders : List Transaction
two_orders = buying ∷ record buying { ord = record sale { signature = 3 ∷ [] } } ∷ []

distr_shares_example :
    (ms : List MinerTx) × (distr signed two_orders miner alice bob shop 10 ≡ some ms)
    × ((a : Bytes)
        → paid a ms
          ≡ count (sold_to signed zeros a) two_orders * (49460000000 / 10 / 1)
            + due_others signed miner alice bob a 1 49460000000)
    × (sum ms ≤ 49460000000)
    × (49460000000 < sum ms + 1 + 5)
    × (49460000000 ≤ 49460000000)
unfolding addr_to_pub reward bytes_eq
distr_shares_example = distr_shares signed two_orders miner alice bob shop zeros 10 refl refl

-- Alice sends Bob 30 for a fee of 2, without a script: nobody is paid the fee.
abbrev sending : Transaction
sending = record buying { amount = 30; fee = 2; hash = codes "h"; ord = no_order }

abbrev sold : Blocks
sold = record {
  height = 7;
  prev_block_hash = [];
  txs = sending ∷ [];
  root = [];
  version = 1;
  timestamp = 5;
  hash = codes "b";
  miner = miner;
  res = [];
  first_tx = [];
}

transaction_conserves_example :
    Conserved disk willing chain miner sending
      (add_transaction disk
        (λ tx. some [])
        (record { accepts = λ k v. true; commits = true })
        miner
        sold
        7
        (λ k. not_exist)
        chain
        sending).1
unfolding bytes_eq fetched_u64 raft_project.Common.Dict.lookup e64func raft_project.Codec.le_decode
    e_map_key
transaction_conserves_example =
    transaction_conserves disk willing chain miner sending (bytes_eq-false→ne alice bob refl)
      (bytes_eq-false→ne alice miner refl) (bytes_eq-false→ne bob miner refl) (omega arith)
      (omega arith) (omega arith) (omega arith) (λ tx. some []) (λ tx. ([], refl))
      (record { accepts = λ k v. true; commits = true }) sold 7 (λ k. not_exist)
      (refl, bytes_eq-false→ne (codes "h") alice refl)
      (refl, bytes_eq-false→ne (codes "h") bob refl)
      (refl, bytes_eq-false→ne (codes "h") miner refl)
