-- ===== src/Chain/Locks.antt =====
-- Locked balances of blockchain/blockchain.go. The transaction is the state that it works on; a
-- refused write, or a commit that badger refuses, leaves the state before it.
pub mod Limits
use raft_project.Common.{ℕ, ◌+◌, ◌%◌, ◌^◌, Bool, true, false, ◌||◌, Option, none, some}
use raft_project.Common.Tests.{ltb, if◌then◌else◌}
use raft_project.Common.Lists.{Bytes}
use raft_project.Codec.{e64func}
use raft_project.Store.{Badger, Fetch, found, not_exist, failed, mget, mset, mdel}
use raft_project.Chain.{add_u64, sub_u64, fetched_u64, is_value, lock_map}

abbrev after_write : {S : Type 0} → Option S → (S → Option S) → Option S
after_write none f = none
after_write (some s) f = f s

abbrev committed : {S : Type 0} → S → Bool → Option S → S × Bool
committed s commits none = (s, false)
committed s false (some s') = (s, false)
committed s true (some s') = (s', true)

module _ (b : Badger) where
  open b use {Txn, get}

  -- `GetBalance` and `GetLockBalance` as their callers here use them: 0 after any error.
  unfoldable pub get_balance : Txn → Bytes → ℕ
  get_balance s addr = fetched_u64 (get s addr)

  unfoldable pub get_lock_balance : Txn → Bytes → ℕ
  get_lock_balance s addr = fetched_u64 (mget b s lock_map addr)

  -- `SetLockBalance`; `none` is its error.
  unfoldable pub set_lock_balance : Txn → Bytes → ℕ → Option Txn
  set_lock_balance s addr amount =
      if is_value (mget b s lock_map addr)
      then after_write (mdel b s lock_map addr) (λ s'. mset b s' lock_map addr (e64func amount))
      else mset b s lock_map addr (e64func amount)

  -- `LockBalance`; `commits` is whether badger takes the commit.
  unfoldable pub lock_balance : Txn → Bytes → ℕ → Bool → Txn × Bool
  lock_balance s addr amount commits =
      let bal = get_balance s addr in
      let locked = get_lock_balance s addr in
      let lb = add_u64 locked amount in
      let num = sub_u64 bal locked in
      if ltb bal lb || (ltb bal amount || ltb num amount)
      then (s, false)
      else committed s commits (set_lock_balance s addr (add_u64 amount locked))

  -- `Unlockbalance`
  unfoldable pub unlock_balance : Txn → Bytes → ℕ → Bool → Txn × Bool
  unlock_balance s addr amount commits =
      let locked = get_lock_balance s addr in
      if ltb locked amount
      then (s, false)
      else committed s commits (set_lock_balance s addr (sub_u64 locked amount))
