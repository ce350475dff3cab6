-- ===== src/Txpool.antt =====
-- The pool of txpool/txpool.go: which transactions it takes, and the heap that it keeps them in.
pub mod Heap
pub mod Accepted
pub mod Kept
pub mod Pendings
pub mod Verified
use raft_project.Common.{
  ℕ, zero, suc, ◌+◌, ◌-◌, ◌*◌, ◌/◌, ◌%◌, ◌^◌, Bool, true, false, not, ◌&&◌, ◌||◌, Option, none,
  some, List, [], ◌∷◌, ◌++◌,
}
use raft_project.Common.Tests.{ltb, leb, ◌==◌, if◌then◌else◌}
use raft_project.Common.Lists.{Bytes, codes, bytes_eq, length, take, drop, get_elem?}
use raft_project.Common.Outcome.{Outcome, ok, err, panic, ◌>>=◌, ◌>>◌, fail_if, or_panic}
use raft_project.Codec.{e64func, le_decode}
use raft_project.Store.{Badger, Fetch, found, not_exist, failed, mget, mset}
use raft_project.Base58.{addr_to_pub}
use raft_project.Transaction.{Transaction, Order}
use raft_project.Chain.{sub_u64, nonce_map, lock_map, keep, is_value}

-- Signed 64 bit comparison of words.
abbrev pub lt_i64 : ℕ → ℕ → Bool
lt_i64 a b = ltb ((a + 2 ^ 63) % 2 ^ 64) ((b + 2 ^ 63) % 2 ^ 64)

-- `TxHeap.Less`, on the two transactions.
unfoldable pub less : Transaction → Transaction → Bool
less a b =
    let by_time = lt_i64 a.time b.time in
    if bytes_eq a.from b.from
    then (if a.nonce == b.nonce then by_time else lt_i64 a.nonce b.nonce)
    else by_time

-- The loop of `TxHeap.check`: `none` for the transaction's own nonce, else the sender's number of
-- transactions.
unfoldable pub count_from : Bytes → ℕ → List Transaction → Option ℕ
count_from from nonce [] = some 0
count_from from nonce (tx ∷ txs) =
    let rest = count_from from nonce txs in
    if bytes_eq from tx.from
    then (if nonce == tx.nonce
        then none
        else elim rest [ none ↦ none | some count ↦ some (suc count) ])
    else rest

unfoldable pub check : Bytes → ℕ → List Transaction → Bool
unfolding count_from
check from nonce txs = elim (count_from from nonce txs) [ none ↦ false | some count ↦ ltb count 50 ]

-- What `GetNonce`, `GetBalance` and `GetLockBalance` read: `none` is an error.
unfoldable pub word_of : Bytes → Option ℕ
word_of v = if length v == 8 then some (le_decode v) else none

unfoldable pub fetched_word : Fetch → Option ℕ
unfolding word_of
fetched_word (found v) = word_of v
fetched_word not_exist = none
fetched_word failed = none

-- Go's `x, _ := f()` where `f` gives 0 with its error.
unfoldable pub or_zero : Option ℕ → ℕ
or_zero none = 0
or_zero (some n) = n

abbrev pub is_kto : Bytes → Bool
is_kto addr = bytes_eq (take 3 addr) (codes "Kto")

-- The errors of the pool. `errtx` stands for `verify`'s false too, which `Add` turns into it.
pub data AddError : Type 0 where
  errtx errtomuch errtxoutrange : AddError

-- An error of the chain, which `verify` answers with false.
abbrev pub or_errtx : Option ℕ → Outcome AddError ℕ
or_errtx none = err errtx
or_errtx (some n) = ok n

-- A sender's or receiver's public key, of 32 bytes behind "Kto". Addresses have 47 bytes.
unfoldable pub key_of : Bytes → Outcome AddError Bytes
key_of addr = do
  fail_if (not (is_kto addr)) errtx
  key ← or_panic (addr_to_pub addr)
  fail_if (not (length key == 32)) errtx
  ok key

-- `readinfo`, of the `qtj` entry of the configuration.
unfoldable pub readinfo : Bytes → Outcome AddError Bytes
readinfo str = do key ← or_panic (addr_to_pub str); if length key == 32 then ok key else ok []

-- `TxHeap.Push` and `TxHeap.Pop`, and container/heap's `Push` and `Pop`, which use them, with their
-- loops `up` and `down`. The index falls by half in every round of `up` and grows to more than
-- double in every round of `down`, so the length is fuel enough.
unfoldable pub set_at {ℓ} : {A : Type ℓ} → ℕ → A → List A → List A
set_at i v [] = []
set_at zero v (x ∷ xs) = v ∷ xs
set_at (suc i) v (x ∷ xs) = x ∷ set_at i v xs

unfoldable pub swap {ℓ} : {A : Type ℓ} → ℕ → ℕ → List A → List A
swap i j xs = elim (get_elem? xs i) [
  | none ↦ xs
  | some a ↦ elim (get_elem? xs j) [ none ↦ xs | some c ↦ set_at i c (set_at j a xs) ]
]

unfoldable pub less_at : List Transaction → ℕ → ℕ → Bool
unfolding less
less_at xs i j = elim (get_elem? xs i) [
  | none ↦ false
  | some a ↦ elim (get_elem? xs j) [ none ↦ false | some c ↦ less a c ]
]

unfoldable pub up : ℕ → ℕ → List Transaction → List Transaction
unfolding less_at swap
up zero j xs = xs
up (suc fuel) j xs =
    let i = (j - 1) / 2 in
    let rest = up fuel i (swap i j xs) in if i == j || not (less_at xs j i) then xs else rest

-- The smaller child of `i`, of those below `n`.
unfoldable pub smaller_child : ℕ → ℕ → List Transaction → ℕ
unfolding less_at
smaller_child i n xs =
    let left = 2 * i + 1 in
    if ltb (left + 1) n && less_at xs (left + 1) left then left + 1 else left

unfoldable pub down : ℕ → ℕ → ℕ → List Transaction → List Transaction
unfolding smaller_child less_at swap
down zero i n xs = xs
down (suc fuel) i n xs =
    let j = smaller_child i n xs in
    let rest = down fuel j n (swap i j xs) in
    if leb n (2 * i + 1) || not (less_at xs j i) then xs else rest

unfoldable pub heap_push : Transaction → List Transaction → List Transaction
unfolding up
heap_push tx xs = up (length xs + 1) (length xs) (xs ++ tx ∷ [])

-- `heap.Pop`, which panics on an empty heap.
unfoldable pub heap_pop : List Transaction → Outcome AddError (Transaction × List Transaction)
unfolding down swap
heap_pop xs =
    let n = length xs - 1 in
    let ys = down (length xs) 0 n (swap 0 n xs) in
    or_panic (get_elem? ys n) >>= λ tx. ok (tx, take n ys)

-- The loop of `Filter` that takes the transactions out of the heap: it counts `i` up to the heap's
-- length, which falls in every round.
unfoldable pub pop_rounds :
    ℕ → ℕ → List Transaction → Outcome AddError (List Transaction × List Transaction)
unfolding heap_pop
pop_rounds zero i xs = ok ([], xs)
pop_rounds (suc fuel) i xs =
    let step = (do
      (tx, rest) ← heap_pop xs
      (txs, rest) ← pop_rounds fuel (suc i) rest
      ok (tx ∷ txs, rest)) in
    if ltb i (length xs) then step else ok ([], xs)

-- And the loop that puts those of the last ten seconds back.
unfoldable pub push_fresh : ℕ → List Transaction → List Transaction → List Transaction
unfolding heap_push
push_fresh now [] xs = xs
push_fresh now (tx ∷ txs) xs =
    let fresh = push_fresh now txs (heap_push tx xs) in
    let stale = push_fresh now txs xs in if lt_i64 (sub_u64 now tx.time) 10 then fresh else stale

-- The transactions of a block, taken out by sender and nonce.
unfoldable pub without : Transaction → List Transaction → List Transaction
without tx [] = []
without tx (u ∷ us) =
    let rest = without tx us in
    if bytes_eq tx.from u.from && tx.nonce == u.nonce then rest else u ∷ rest

unfoldable pub without_all : List Transaction → List Transaction → List Transaction
unfolding without
without_all [] xs = xs
without_all (tx ∷ txs) xs = without_all txs (without tx xs)

-- A pool, without its queue and its maps, which only `Pendings` uses. `List` is a heap in the order
-- of its array.
pub record Pool : Type 0 where
  pub list : List Transaction
  pub pending : List Transaction

-- `Filter`, for the transactions of a block, at the time `now`.
unfoldable pub filter : Pool → List Transaction → ℕ → Outcome AddError Pool
unfolding without_all pop_rounds push_fresh
filter pool txs now = do
  let left = without_all txs pool.list
  (popped, rest) ← pop_rounds (length left) 0 left
  ok (record pool { list = push_fresh now popped rest })

-- ed25519's verification is not part of the repository. It panics if the key has not 32 bytes. `qtj`
-- is an entry of the configuration.
module _ (b : Badger) (ed25519 : Bytes → Bytes → Bytes → Bool) (qtj : Bytes) where
  open b use {Txn, get}

  unfoldable pub signed_by : Bytes → Bytes → Bytes → Outcome AddError (Unit {0})
  signed_by key hash signature =
      if length key == 32 then fail_if (not (ed25519 key hash signature)) errtx else panic

  -- `SetNonce`, whose write and commit are taken or not.
  unfoldable pub set_nonce : Txn → Bytes → ℕ → Bool → Option Txn
  set_nonce s addr n commits = if commits then mset b s nonce_map addr (e64func n) else none

  -- The sender's nonce, as `verify` gets it, from what is read as a number, whether a value is there,
  -- and the writing of a 1: `GetNonce` writes it where there is no value and takes no notice of an
  -- error in that; `verify` writes it over what is no number, or fails.
  unfoldable pub first_nonce : Txn → Option ℕ → Bool → Option Txn → Option (Txn × ℕ)
  unfolding keep
  first_nonce s (some n) there written = some (s, n)
  first_nonce s none true none = none
  first_nonce s none true (some s') = some (s', 1)
  first_nonce s none false written = some (keep written s, 1)

  unfoldable pub nonce_for : Txn → Bytes → Bool → Option (Txn × ℕ)
  unfolding fetched_word set_nonce is_value first_nonce
  nonce_for s addr commits =
      let v = mget b s nonce_map addr in
      first_nonce s (fetched_word v) (is_value v) (set_nonce s addr 1 commits)

  -- The checks of nonce, balance, fee and amount.
  unfoldable pub covered : Txn → Transaction → ℕ → Outcome AddError (Unit {0})
  unfolding fetched_word or_zero
  covered s tx nonce = do
    fail_if (ltb tx.nonce nonce) errtx
    bal ← or_errtx (fetched_word (get s tx.from))
    let ulb = sub_u64 bal (or_zero (fetched_word (mget b s lock_map tx.from)))
    fail_if (ltb ulb tx.amount) errtx
    fail_if (not (length tx.script == 0) && (ltb tx.fee 500000 || ltb ulb tx.fee)) errtx
    fail_if (ltb tx.amount 500000 || ltb bal tx.amount) errtx

  -- The check of an order's signature.
  unfoldable pub ordered : Transaction → Outcome AddError (Unit {0})
  unfolding readinfo signed_by
  ordered tx =
      if length tx.ord.signature == 0
      then ok tt
      else readinfo qtj >>= λ key. signed_by key tx.ord.hash tx.ord.signature

  -- The checks of `verify` before it reads the chain.
  unfoldable pub authentic : Transaction → Outcome AddError (Unit {0})
  unfolding key_of signed_by
  authentic tx = do
    key ← key_of tx.from
    receiver ← key_of tx.to
    signed_by key tx.hash tx.signature

  -- The state after `verify`, and what it says, from the first checks and the nonce.
  unfoldable pub verdict :
      Txn
      → Transaction
      → Outcome AddError (Unit {0})
      → Option (Txn × ℕ)
      → Txn × Outcome AddError (Unit {0})
  unfolding covered ordered
  verdict s tx panic read = (s, panic)
  verdict s tx (err e) read = (s, err e)
  verdict s tx (ok done) none = (s, err errtx)
  verdict s tx (ok done) (some (s', nonce)) = (s', covered s' tx nonce >> ordered tx)

  unfoldable pub verify : Txn → Transaction → Bool → Txn × Outcome AddError (Unit {0})
  unfolding authentic nonce_for verdict
  verify s tx commits = verdict s tx (authentic tx) (nonce_for s tx.from commits)

  -- `Add`, at the time `now`.
  unfoldable pub add : Txn → Pool → Transaction → Bool → ℕ → Txn × Outcome AddError Pool
  unfolding verify check heap_push
  add s pool tx commits now =
      let stamped = record tx { time = now } in
      let (s', accepted) = verify s tx commits in
      if ltb 1500 (length pool.list) then (s, err errtxoutrange) else (
        s',
        (do
          accepted
          fail_if (not (check tx.from tx.nonce pool.list)) errtomuch
          ok (record pool { list = heap_push stamped pool.list })),
      )
