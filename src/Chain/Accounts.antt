-- ===== src/Chain/Accounts.antt =====
-- What the account functions do to every balance and nonce.
use raft_project.Common.{ℕ, ◌%◌, ◌^◌, ◌<◌, ◌≡◌, refl, ◌∙◌, false, inl, inr, [], ◌∷◌, arith}
use raft_project.Common.Tests.{◌==◌, if◌then◌else◌, Bool-cases}
use raft_project.Common.Lists.{Bytes, bytes_eq, bytes_eq_iff}
use raft_project.Codec.{e64func}
use raft_project.Codec.Words.{le_decode-le_encode8}
use raft_project.Store.{Badger, Willing, Fetch, found, not_exist, failed, e_map_key, mset, mdel}
use raft_project.Chain.{
  add_u64, sub_u64, fetched_u64, is_value, nonce_map, keep, set_balance, opened, set_miner_account,
  set_miner_fee, set_account,
}

-- An address as `verify` admits it: its first byte is 'K'. So it is no map entry's key.
abbrev pub IsAddress : Bytes → Type 0
IsAddress [] = ⊥
IsAddress (c ∷ cs) = c ≡ b'K'

pub map_key-ne : (m k a : Bytes) → IsAddress a → bytes_eq (e_map_key m k) a ≡ false
unfolding e_map_key bytes_eq
map_key-ne m k [] h = absurd h
map_key-ne m k (c ∷ a) h = ground arith

ne-map_key : (m k a : Bytes) → IsAddress a → bytes_eq a (e_map_key m k) ≡ false
ne-map_key m k a h =
    ground
      (arith, map_key-ne m k a h, bytes_eq_iff a (e_map_key m k), bytes_eq_iff (e_map_key m k) a)

pub fetched_u64-e64func : (n : ℕ) → fetched_u64 (found (e64func n)) ≡ n % 2 ^ 64
unfolding fetched_u64 e64func
fetched_u64-e64func n = omega (arith, le_decode-le_encode8 n)

fetched_missing : (f : Fetch) → is_value f ≡ false → fetched_u64 f ≡ 0
unfolding is_value fetched_u64
fetched_missing (found v) h = cc
fetched_missing not_exist h = refl
fetched_missing failed h = refl

-- The sender's balance after `setAccount`.
abbrev pub charged : ℕ → ℕ → ℕ → ℕ
charged balance amount fee =
    if fee == 0 then sub_u64 balance amount else sub_u64 (sub_u64 balance amount) fee

charged_bound : (balance amount fee : ℕ) → charged balance amount fee < 2 ^ 64
charged_bound balance amount fee = ground arith

module _ (b : Badger) (w : Willing b) where
  open b use {Txn, get, put, delete}

  abbrev pub balance_of : Txn → Bytes → ℕ
  balance_of s a = fetched_u64 (get s a)

  abbrev pub nonce_of : Txn → Bytes → ℕ
  nonce_of s a = fetched_u64 (get s (e_map_key nonce_map a))

  pub get-put_kept :
      (s : Txn) (k v j : Bytes)
      → get (keep (put s k v) s) j ≡ (if bytes_eq k j then found v else get s j)
  unfolding keep
  get-put_kept s k v j = let (s', e) = w.puts s k v in rw e (b.get-put s s' k v j e)

  pub get-delete_kept :
      (s : Txn) (k j : Bytes)
      → get (keep (delete s k) s) j ≡ (if bytes_eq k j then not_exist else get s j)
  unfolding keep
  get-delete_kept s k j = let (s', e) = w.deletes s k in rw e (b.get-delete s s' k j e)

  get-set_balance :
      (s : Txn) (a v j : Bytes)
      → get (set_balance b s a v) j ≡ (if bytes_eq a j then found v else get s j)
  unfolding set_balance
  get-set_balance s a v j =
      ground (arith, get-put_kept (keep (delete s a) s) a v j, get-delete_kept s a j)

  -- Opening an account changes no balance.
  balance_of-opened : (s : Txn) (to a : Bytes) → balance_of (opened b s to) a ≡ balance_of s a
  unfolding opened
  balance_of-opened s to a = elim (Bool-cases (is_value (get s to))) [
    | inl there ↦ rw there
    | inr missing ↦ rw missing (
        ground (
          arith,
          get-set_balance s to (e64func 0) a,
          fetched_u64-e64func 0,
          fetched_missing (get s to) missing,
          bytes_eq_iff to a,
        ))
  ]

  balance_of-set_balance :
      (s : Txn) (a j : Bytes) (n : ℕ)
      → n < 2 ^ 64
      → balance_of (set_balance b s a (e64func n)) j ≡ (if bytes_eq a j then n else balance_of s j)
  balance_of-set_balance s a j n h =
      ground (arith, get-set_balance s a (e64func n) j, fetched_u64-e64func n)

  -- The nonce that `setAccount` writes at its end; it moves no balance.
  balance_of-nonce :
      (s : Txn) (from v j : Bytes)
      → IsAddress j
      → let s' = keep (mdel b s nonce_map from) s in
        balance_of (keep (mset b s' nonce_map from v) s') j ≡ balance_of s j
  unfolding mdel mset
  balance_of-nonce s from v j h =
      let k = e_map_key nonce_map from in
      ground (
        arith,
        get-put_kept (keep (delete s k) s) k v j,
        get-delete_kept s k j,
        map_key-ne nonce_map from j h,
      )

  nonce_of-nonce :
      (s : Txn) (from : Bytes) (n : ℕ)
      → nonce_of (keep (mset b s nonce_map from (e64func n)) s) from ≡ n % 2 ^ 64
  unfolding mset
  nonce_of-nonce s from n =
      let k = e_map_key nonce_map from in
      ground (arith, get-put_kept s k (e64func n) k, bytes_eq_iff k k, fetched_u64-e64func n)

  -- On a store that takes every write and deletion, after the account changes of a transaction the
  -- receiver holds what it held before and the amount, modulo 2^64; the sender, if it is another
  -- account, what it held less the amount and the fee, modulo 2^64; every other account what it
  -- held; and the sender's nonce is the transaction's and one, modulo 2^64. An account's address
  -- starts with 'K'.
  pub set_account_lem :
      (s : Txn) (from to : Bytes) (amount nonce fee : ℕ) (j : Bytes)
      → IsAddress j
      → (balance_of (set_account b s from to amount nonce fee) j ≡ (
          if bytes_eq to j
          then add_u64 (balance_of s to) amount
          else if bytes_eq from j
          then charged (balance_of s from) amount fee
          else balance_of s j))
        × (nonce_of (set_account b s from to amount nonce fee) from ≡ add_u64 nonce 1)
  unfolding set_account
  set_account_lem s from to amount nonce fee j h =
      let s0 = opened b s to in
      let lowered = charged (balance_of s0 from) amount fee in
      let raised = add_u64 (balance_of s to) amount in
      let s1 = set_balance b s0 from (e64func lowered) in
      let s2 = set_balance b s1 to (e64func raised) in
      (
        balance_of-nonce s2 from (e64func (add_u64 nonce 1)) j h
            ∙ rw
                (
                  balance_of-set_balance s1 to j raised (omega arith),
                  balance_of-set_balance s0 from j lowered
                      (charged_bound (balance_of s0 from) amount fee),
                  balance_of-opened s to j,
                  balance_of-opened s to from,
                )
                refl,
        nonce_of-nonce (keep (mdel b s2 nonce_map from) s2) from (add_u64 nonce 1) ∙ omega arith,
      )

  -- Raising a miner's account adds the amount to its balance, modulo 2^64, and changes no other.
  pub set_miner_account_lem :
      (s : Txn) (to : Bytes) (amount : ℕ) (j : Bytes)
      → balance_of (set_miner_account b s to amount) j
        ≡ (if bytes_eq to j then add_u64 (balance_of s to) amount else balance_of s j)
  unfolding set_miner_account
  set_miner_account_lem s to amount j =
      rw
        (
          balance_of-set_balance (opened b s to) to j (add_u64 (balance_of s to) amount)
              (omega arith),
          balance_of-opened s to j,
        )
        refl

  -- The same of the fee of a transaction.
  pub set_miner_fee_lem :
      (s : Txn) (to : Bytes) (amount : ℕ) (j : Bytes)
      → balance_of (set_miner_fee b s to amount) j
        ≡ (if bytes_eq to j then add_u64 (balance_of s to) amount else balance_of s j)
  unfolding set_miner_fee
  set_miner_fee_lem s to amount j =
      rw
        (
          balance_of-set_balance (opened b s to) to j (add_u64 (balance_of s to) amount)
              (omega arith),
          balance_of-opened s to j,
        )
        refl
