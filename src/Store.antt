-- ===== src/Store.antt =====
-- The key-value store: until/store/types.go and until/store/bg/bg.go over badger, which is not part
-- of the repository and enters as the interface `Badger`.
pub mod Keys
pub mod Lists
pub mod Sets
pub mod Scan
pub mod Database
pub mod Server
use raft_project.Common.{
  ℕ, zero, suc, ◌+◌, ◌%◌, ◌^◌, ◌≡◌, Bool, true, false, Option, none, some, [], ◌∷◌, ◌++◌,
}
use raft_project.Common.Tests.{ltb, if◌then◌else◌}
use raft_project.Common.Lists.{Bytes, bytes_eq, length, take, drop}
use raft_project.Common.Outcome.{Outcome, ok, err, panic}
use raft_project.Codec.{e32func, le_decode}

-- What `Get` gives: a value, `store.NotExist`, or another error of the database.
pub data Fetch : Type 0 where
  found : Bytes → Fetch
  not_exist failed : Fetch

-- A badger transaction. A refused write leaves it as it was; a write that is taken is seen by the
-- reads after it, and touches no other key.
pub record Badger : Type 1 where
  pub Txn : Type 0
  pub get : Txn → Bytes → Fetch
  pub put : Txn → Bytes → Bytes → Option Txn
  pub delete : Txn → Bytes → Option Txn
  pub get-put :
      (s s' : Txn) (k v j : Bytes)
      → put s k v ≡ some s'
      → get s' j ≡ (if bytes_eq k j then found v else get s j)
  pub get-delete :
      (s s' : Txn) (k j : Bytes)
      → delete s k ≡ some s'
      → get s' j ≡ (if bytes_eq k j then not_exist else get s j)

-- A transaction that takes every write.
pub record Willing (b : Badger) : Type 0 where
  pub puts : (s : b.Txn) (k v : Bytes) → (s' : b.Txn) × (b.put s k v ≡ some s')
  pub deletes : (s : b.Txn) (k : Bytes) → (s' : b.Txn) × (b.delete s k ≡ some s')

-- 'm' + mlen + m + '+' + k
unfoldable pub e_map_key : Bytes → Bytes → Bytes
e_map_key m k = b'm' ∷ (e32func (length m % 2 ^ 32) ++ (m ++ b'+' ∷ k))

-- `buf[1:]`, `buf[:4]` and `buf[5+n:]`, which panic beyond the end.
unfoldable pub d_map_key : Bytes → Outcome Fetch Bytes
d_map_key [] = panic
d_map_key (c ∷ buf) =
    let n = le_decode (take 4 buf) in
    if ltb (length buf) 4
    then panic
    else if ltb (length buf) ((5 + n) % 2 ^ 32)
    then panic
    else ok (drop ((5 + n) % 2 ^ 32) buf)

module _ (b : Badger) where
  open b use {Txn, get, put, delete}

  unfoldable pub mget : Txn → Bytes → Bytes → Fetch
  mget s m k = get s (e_map_key m k)

  unfoldable pub mset : Txn → Bytes → Bytes → Bytes → Option Txn
  mset s m k v = put s (e_map_key m k) v

  unfoldable pub mdel : Txn → Bytes → Bytes → Option Txn
  mdel s m k = delete s (e_map_key m k)
