-- ===== src/Store/Lists.antt =====
-- The lists of until/store/bg/bg.go: a record of two 64 bit indices under a list's own key, and an
-- entry for each index from the first to before the second. Indices are `int64`, kept as words.
pub mod Queue
pub mod Writes
pub mod Ends
pub mod Entries
use raft_project.Common.{
  ℕ, zero, suc, ◌+◌, ◌-◌, ◌%◌, ◌^◌, Bool, true, false, not, ◌||◌, Option, none, some, List, [], ◌∷◌,
  ◌++◌,
}
use raft_project.Common.Tests.{ltb, ◌==◌, if◌then◌else◌}
use raft_project.Common.Lists.{Bytes, length, take, drop}
use raft_project.Common.Outcome.{Outcome, ok, err, panic}
use raft_project.Codec.{e64func, le_decode}
use raft_project.Store.{Badger, Fetch, found, not_exist, failed}

-- `int64` arithmetic and order, on words.
abbrev pub inc64 : ℕ → ℕ
inc64 n = (n + 1) % 2 ^ 64

abbrev pub dec64 : ℕ → ℕ
dec64 n = (n + (2 ^ 64 - 1)) % 2 ^ 64

abbrev pub plus64 : ℕ → ℕ → ℕ
plus64 m n = (m + n) % 2 ^ 64

abbrev pub minus64 : ℕ → ℕ → ℕ
minus64 m n = (m + (2 ^ 64 - n % 2 ^ 64)) % 2 ^ 64

abbrev pub below64 : ℕ → ℕ → Bool
below64 m n = ltb ((m + 2 ^ 63) % 2 ^ 64) ((n + 2 ^ 63) % 2 ^ 64)

-- 'l' + k
unfoldable pub e_list_meta_key : Bytes → Bytes
e_list_meta_key k = b'l' ∷ k

-- start + end
unfoldable pub e_list_meta_value : ℕ → ℕ → Bytes
e_list_meta_value start end = e64func start ++ e64func end

-- `buf[:8]` and `buf[8:16]`, which panic beyond the end; the slice has no spare capacity.
unfoldable pub d_list_meta_value : Bytes → Outcome Fetch (ℕ × ℕ)
d_list_meta_value buf =
    if ltb (length buf) 16
    then panic
    else ok (le_decode (take 8 buf), le_decode (take 8 (drop 8 buf)))

-- 'l' + k + index
unfoldable pub e_list_key : Bytes → ℕ → Bytes
e_list_key k idx = b'l' ∷ (k ++ e64func idx)

-- How a list operation fails: `store.OutOfSize`, a refused write, or an error of a read.
pub data ListError : Type 0 where
  out_of_size write_refused : ListError
  unread : Fetch → ListError

abbrev pub bounds_of : Fetch → Outcome Fetch (ℕ × ℕ)
bounds_of (found v) = d_list_meta_value v
bounds_of not_exist = err not_exist
bounds_of failed = err failed

abbrev pub item_of : Fetch → Outcome ListError Bytes
item_of (found v) = ok v
item_of not_exist = err (unread not_exist)
item_of failed = err (unread failed)

module _ (b : Badger) where
  open b use {Txn, get, put, delete}

  -- An operation leaves a transaction, which may have a part of the writes, and ends in an outcome.
  abbrev pub Done : Type 0 → Type 0
  Done A = Txn × Outcome ListError A

  unfoldable pub list_start_end : Txn → Bytes → Outcome Fetch (ℕ × ℕ)
  list_start_end s k = bounds_of (get s (e_list_meta_key k))

  unfoldable pub lnew : Txn → Bytes → Option Txn
  lnew s k = put s (e_list_meta_key k) (e_list_meta_value 0 0)

  abbrev pub or_refused_with : {A : Type 0} → Txn → A → Option Txn → Done A
  or_refused_with s a none = (s, err write_refused)
  or_refused_with s a (some s') = (s', ok a)

  unfoldable pub set_bounds : {A : Type 0} → Txn → Bytes → ℕ → ℕ → A → Done A
  set_bounds s k start end a =
      or_refused_with s a (put s (e_list_meta_key k) (e_list_meta_value start end))

  unfoldable pub llen : Txn → Bytes → Outcome Fetch ℕ
  llen s k = elim (list_start_end s k) [
    | ok (start, end) ↦ ok (minus64 end start)
    | err e ↦ ok 0
    | panic ↦ panic
  ]

  -- An entry, and then the bounds.
  abbrev pub pushed : Txn → Bytes → ℕ → ℕ → ℕ → Option Txn → Done ℕ
  pushed s k start end n none = (s, err write_refused)
  pushed s k start end n (some s') = set_bounds s' k start end n

  unfoldable pub llpush_at : Txn → Bytes → Bytes → ℕ → ℕ → Done ℕ
  llpush_at s k v start end =
      if dec64 start == end
      then (s, err out_of_size)
      else pushed s k (dec64 start) end (inc64 (minus64 end start))
          (put s (e_list_key k (dec64 start)) v)

  unfoldable pub lrpush_at : Txn → Bytes → Bytes → ℕ → ℕ → Done ℕ
  lrpush_at s k v start end =
      if start == inc64 end
      then (s, err out_of_size)
      else pushed s k start (inc64 end) (inc64 (minus64 end start)) (put s (e_list_key k end) v)

  -- A list that is not there is made first.
  abbrev pub on_new : (Txn → ℕ → ℕ → Done ℕ) → Txn → Option Txn → Done ℕ
  on_new push s none = (s, err write_refused)
  on_new push s (some s') = push s' 0 0

  abbrev pub bounds_or_new :
      (Txn → ℕ → ℕ → Done ℕ) → Txn → Option Txn → Outcome Fetch (ℕ × ℕ) → Done ℕ
  bounds_or_new push s new (ok (start, end)) = push s start end
  bounds_or_new push s new (err e) = on_new push s new
  bounds_or_new push s new panic = (s, panic)

  unfoldable pub llpush : Txn → Bytes → Bytes → Done ℕ
  llpush s k v = bounds_or_new (λ s. llpush_at s k v) s (lnew s k) (list_start_end s k)

  unfoldable pub lrpush : Txn → Bytes → Bytes → Done ℕ
  lrpush s k v = bounds_or_new (λ s. lrpush_at s k v) s (lnew s k) (list_start_end s k)

  -- The entry of an index; the bounds become what they are without it. The entry stays.
  abbrev pub popped : Txn → Bytes → ℕ → ℕ → Outcome ListError Bytes → Done Bytes
  popped s k start end (ok v) = set_bounds s k start end v
  popped s k start end (err e) = (s, err e)
  popped s k start end panic = (s, panic)

  unfoldable pub llpop_at : Txn → Bytes → Outcome Fetch (ℕ × ℕ) → Done Bytes
  llpop_at s k (ok (start, end)) =
      if start == end
      then (s, err out_of_size)
      else popped s k (inc64 start) end (item_of (get s (e_list_key k start)))
  llpop_at s k (err e) = (s, err (unread e))
  llpop_at s k panic = (s, panic)

  unfoldable pub llpop : Txn → Bytes → Done Bytes
  llpop s k = llpop_at s k (list_start_end s k)

  unfoldable pub lrpop_at : Txn → Bytes → Outcome Fetch (ℕ × ℕ) → Done Bytes
  lrpop_at s k (ok (start, end)) =
      if start == end
      then (s, err out_of_size)
      else popped s k start (dec64 end) (item_of (get s (e_list_key k (dec64 end))))
  lrpop_at s k (err e) = (s, err (unread e))
  lrpop_at s k panic = (s, panic)

  unfoldable pub lrpop : Txn → Bytes → Done Bytes
  lrpop s k = lrpop_at s k (list_start_end s k)
