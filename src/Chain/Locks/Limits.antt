-- ===== src/Chain/Locks/Limits.antt =====
-- Locking and unlocking keep the locked part within the balance.
use raft_project.Common.{ℕ, ◌+◌, ◌-◌, ◌^◌, ◌≤◌, ◌<◌, ◌≡◌, Bool, true, ◌&&◌, inl, inr, some, arith}
use raft_project.Common.Tests.{leb, if◌then◌else◌, Bool-cases}
use raft_project.Common.Lists.{Bytes, bytes_eq_iff}
use raft_project.Codec.{e64func}
use raft_project.Store.{Badger, e_map_key, mget, mset, mdel}
use raft_project.Chain.{add_u64, sub_u64, is_value, lock_map}
use raft_project.Chain.Accounts.{IsAddress, map_key-ne, fetched_u64-e64func}
use raft_project.Store.{Willing}
use raft_project.Chain.Locks.{
  get_balance, get_lock_balance, set_lock_balance, lock_balance, unlock_balance,
}

module _ (b : Badger) (w : Willing b) where
  open b use {Txn, get, put, delete}

  set_lock_balance_lem :
      (s : Txn) (addr : Bytes) (n : ℕ)
      → IsAddress addr
      → n < 2 ^ 64
      → (s' : Txn) × (set_lock_balance b s addr n ≡ some s')
        × (get_lock_balance b s' addr ≡ n)
        × (get_balance b s' addr ≡ get_balance b s addr)
  unfolding set_lock_balance get_lock_balance get_balance mget mset mdel
  set_lock_balance_lem s addr n h small =
      let k = e_map_key lock_map addr in
      let value = fetched_u64-e64func n in
      let apart = map_key-ne lock_map addr addr h in
      let same = bytes_eq_iff k k in
      elim (Bool-cases (is_value (get s k))) [
        | inl there ↦
            let (s0, deleted) = w.deletes s k in
            let (s', written) = w.puts s0 k (e64func n) in
            (
              s',
              rw (there, deleted) written,
              ground (arith, b.get-put s0 s' k (e64func n) k written, same, value),
              ground (
                arith,
                b.get-put s0 s' k (e64func n) addr written,
                b.get-delete s s0 k addr deleted,
                apart,
              ),
            )
        | inr missing ↦
            let (s', written) = w.puts s k (e64func n) in
            (
              s',
              rw missing written,
              ground (arith, b.get-put s s' k (e64func n) k written, same, value),
              ground (arith, b.get-put s s' k (e64func n) addr written, apart),
            )
      ]

  module _ (s : Txn) (addr : Bytes) (amount : ℕ) (address : IsAddress addr) (fits : amount < 2 ^ 64)
      (within : get_lock_balance b s addr ≤ get_balance b s addr)
      (bounded : get_balance b s addr < 2 ^ 64) where
    -- Of an account whose locked part is within its balance, on a store that takes every write and
    -- deletion, LockBalance locks more exactly if the commit succeeds and the part locked so far
    -- and the amount are together within the balance, and it says so; the locked part then grows by
    -- the amount, and otherwise stays. The balance stays, and the locked part stays within it. The
    -- address starts with 'K', and the amount and the balance are below 2^64.
    pub lock_balance_lem :
        (commits : Bool)
        → let (s', done) = lock_balance b s addr amount commits in
          (done ≡ (commits && leb (get_lock_balance b s addr + amount) (get_balance b s addr)))
          × (get_lock_balance b s' addr ≡ (
              if commits && leb (get_lock_balance b s addr + amount) (get_balance b s addr)
              then get_lock_balance b s addr + amount
              else get_lock_balance b s addr))
          × (get_balance b s' addr ≡ get_balance b s addr)
          × (get_lock_balance b s' addr ≤ get_balance b s' addr)
    unfolding lock_balance
    lock_balance_lem commits =
        let (s', done, locked, kept) =
          set_lock_balance_lem s addr (add_u64 amount (get_lock_balance b s addr)) address
            (omega arith) in
        ground (arith, done, locked, kept)

    -- Unlocking an amount succeeds exactly if that much is locked; the locked part then falls by it,
    -- and otherwise stays, and the balance stays.
    pub unlock_balance_lem :
        let (s', done) = unlock_balance b s addr amount true in
        (done ≡ leb amount (get_lock_balance b s addr))
        × (get_lock_balance b s' addr ≡ (
            if leb amount (get_lock_balance b s addr)
            then get_lock_balance b s addr - amount
            else get_lock_balance b s addr))
        × (get_balance b s' addr ≡ get_balance b s addr)
        × (get_lock_balance b s' addr ≤ get_balance b s' addr)
    unfolding unlock_balance
    unlock_balance_lem =
        let (s', done, locked, kept) =
          set_lock_balance_lem s addr (sub_u64 (get_lock_balance b s addr) amount) address
            (omega arith) in
        ground (arith, done, locked, kept)
