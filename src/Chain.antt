-- ===== src/Chain.antt =====
-- Accounts and rewards of blockchain/blockchain.go: what AddBlock does to balances, fees and nonces,
-- the locked balances, and how the reward of a block is shared out.
pub mod Accounts
pub mod Transfers
pub mod Distr
pub mod Locks
pub mod Block
pub mod Results
pub mod Queries
use raft_project.Common.{
  ℕ, zero, suc, ◌+◌, ◌-◌, ◌*◌, ◌/◌, ◌%◌, ◌^◌, ◌≡◌, Bool, true, false, ◌||◌, ◌&&◌, Option, none,
  some, List, [], ◌∷◌, ◌++◌,
}
use raft_project.Common.Tests.{ltb, ◌==◌, if◌then◌else◌}
use raft_project.Common.Lists.{Bytes, codes, bytes_eq, length}
use raft_project.Codec.{e64func, le_decode}
use raft_project.Store.{Badger, Fetch, found, not_exist, failed, e_map_key, mget, mset, mdel}

-- uint64 arithmetic.
abbrev pub add_u64 : ℕ → ℕ → ℕ
add_u64 a b = (a + b) % 2 ^ 64

abbrev pub sub_u64 : ℕ → ℕ → ℕ
sub_u64 a b = (a + 2 ^ 64 - b) % 2 ^ 64

-- `n, _ := D64func(v)`: 0 unless there are eight bytes.
unfoldable pub u64_or_zero : Bytes → ℕ
u64_or_zero v = if length v == 8 then le_decode v else 0

-- `v, _ := tx.Get(k)` read that way: nil after an error.
unfoldable pub fetched_u64 : Fetch → ℕ
unfolding u64_or_zero
fetched_u64 (found v) = u64_or_zero v
fetched_u64 not_exist = 0
fetched_u64 failed = 0

unfoldable pub is_value : Fetch → Bool
is_value (found v) = true
is_value not_exist = false
is_value failed = false

abbrev pub nonce_map : Bytes
nonce_map = codes "nonce"

abbrev pub lock_map : Bytes
lock_map = codes "lock"

-- The state after a write whose error is ignored.
unfoldable pub keep {ℓ} : {S : Type ℓ} → Option S → S → S
keep none s = s
keep (some s') s = s'

module _ (b : Badger) where
  open b use {Txn, get, put, delete}

  -- `set_balance`; its callers ignore its error.
  unfoldable pub set_balance : Txn → Bytes → Bytes → Txn
  unfolding keep
  set_balance s addr v = let s' = keep (delete s addr) s in keep (put s' addr v) s'

  -- Before a balance is raised: an account that cannot be read is given the balance 0.
  unfoldable pub opened : Txn → Bytes → Txn
  unfolding set_balance is_value
  opened s to = if is_value (get s to) then s else set_balance s to (e64func 0)

  -- `setMinerAccount`, and the two functions that repeat it, `setMinerFee` and `MinerAccount`.
  unfoldable pub set_miner_account : Txn → Bytes → ℕ → Txn
  unfolding opened set_balance fetched_u64
  set_miner_account s to amount =
      let to_balance = fetched_u64 (get s to) in
      set_balance (opened s to) to (e64func (add_u64 to_balance amount))

  unfoldable pub set_miner_fee : Txn → Bytes → ℕ → Txn
  unfolding opened set_balance fetched_u64
  set_miner_fee s to amount =
      let to_balance = fetched_u64 (get s to) in
      set_balance (opened s to) to (e64func (add_u64 to_balance amount))

  -- `setAccount`: the transfer of a transaction, its fee, and the sender's next nonce.
  unfoldable pub set_account : Txn → Bytes → Bytes → ℕ → ℕ → ℕ → Txn
  unfolding opened set_balance fetched_u64 keep mset mdel
  set_account s from to amount nonce fee =
      let to_balance = fetched_u64 (get s to) in
      let s0 = opened s to in
      let from_balance = fetched_u64 (get s0 from) in
      let lowered =
        if fee == 0
        then sub_u64 from_balance amount
        else sub_u64 (sub_u64 from_balance amount) fee in
      let raised = add_u64 to_balance amount in
      let s1 = set_balance s0 from (e64func lowered) in
      let s2 = set_balance s1 to (e64func raised) in
      let s3 = keep (mdel b s2 nonce_map from) s2 in
      keep (mset b s3 nonce_map from (e64func (add_u64 nonce 1))) s3
