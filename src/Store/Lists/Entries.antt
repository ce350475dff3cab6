-- ===== src/Store/Lists/Entries.antt =====
-- Entries of lists, by their indices: `Lset`, `Lindex`, `Lrange` and `Lclear` of until/store/bg/bg.go.
pub mod Read
use raft_project.Common.{
  ℕ, zero, suc, ◌+◌, ◌-◌, ◌%◌, ◌^◌, Bool, true, false, not, ◌||◌, Option, none, some, List, [], ◌∷◌,
  ◌++◌,
}
use raft_project.Common.Tests.{ltb, if◌then◌else◌}
use raft_project.Common.Lists.{Bytes}
use raft_project.Common.Outcome.{Outcome, ok, err, panic}
use raft_project.Store.{Badger, Fetch, found, not_exist, failed}
use raft_project.Store.Lists.{
  inc64, plus64, minus64, below64, e_list_key, e_list_meta_key, ListError, out_of_size,
  write_refused, unread, item_of, Done, or_refused_with, list_start_end,
}

-- An index that is given counts from the start, or if it is negative from the end.
abbrev pub counted : ℕ → ℕ → ℕ → ℕ
counted start end idx = if below64 idx 0 then plus64 idx end else plus64 idx start

abbrev pub outside : ℕ → ℕ → ℕ → Bool
outside start end idx = below64 idx start || not (below64 idx end)

-- The number of rounds of `for ; start <= end; start++`, which ends if `end` is not the largest `int64`.
unfoldable pub rounds : ℕ → ℕ → ℕ
rounds start end = if below64 end start then 0 else minus64 end start + 1

-- The indices of a range, made to count from the first one and cut to the list's.
unfoldable pub range_start : ℕ → ℕ → ℕ → ℕ
range_start x y start = let first = counted x y start in if below64 first x then x else first

unfoldable pub range_end : ℕ → ℕ → ℕ → ℕ
range_end x y end = let last = counted x y end in if below64 last y then last else y

-- An entry that cannot be read is left out.
abbrev pub with_item : Fetch → List Bytes → List Bytes
with_item (found v) vs = v ∷ vs
with_item not_exist vs = vs
with_item failed vs = vs

module _ (b : Badger) where
  open b use {Txn, get, put, delete}

  -- The index is made to count from the first one, and the start is added to it once more.
  unfoldable pub lset_at : Txn → Bytes → ℕ → Bytes → Outcome Fetch (ℕ × ℕ) → Done b (Unit {0})
  lset_at s k idx v (ok (start, end)) =
      let at = counted start end idx in
      if outside start end at
      then (s, err out_of_size)
      else or_refused_with b s tt (put s (e_list_key k (plus64 at start)) v)
  lset_at s k idx v (err e) = (s, err (unread e))
  lset_at s k idx v panic = (s, panic)

  unfoldable pub lset : Txn → Bytes → ℕ → Bytes → Done b (Unit {0})
  lset s k idx v = lset_at s k idx v (list_start_end b s k)

  unfoldable pub lindex_at : Txn → Bytes → ℕ → Outcome Fetch (ℕ × ℕ) → Outcome ListError Bytes
  lindex_at s k idx (ok (start, end)) =
      let at = counted start end idx in
      if outside start end at then ok [] else item_of (get s (e_list_key k (plus64 at start)))
  lindex_at s k idx (err e) = err (unread e)
  lindex_at s k idx panic = panic

  unfoldable pub lindex : Txn → Bytes → ℕ → Outcome ListError Bytes
  lindex s k idx = lindex_at s k idx (list_start_end b s k)

  unfoldable pub range_from : Txn → Bytes → ℕ → ℕ → List Bytes
  range_from s k i zero = []
  range_from s k i (suc n) = with_item (get s (e_list_key k i)) (range_from s k (inc64 i) n)

  unfoldable pub lrange_at :
      Txn → Bytes → ℕ → ℕ → Outcome Fetch (ℕ × ℕ) → Outcome ListError (List Bytes)
  lrange_at s k start end (ok (x, y)) =
      let from = range_start x y start in ok (range_from s k from (rounds from (range_end x y end)))
  lrange_at s k start end (err e) = err (unread e)
  lrange_at s k start end panic = panic

  unfoldable pub lrange : Txn → Bytes → ℕ → ℕ → Outcome ListError (List Bytes)
  lrange s k start end = lrange_at s k start end (list_start_end b s k)

  -- The loop of `llclear`, over a number of entries, and the bounds after it.
  unfoldable pub clear_from : Txn → Bytes → ℕ → ℕ → Done b (Unit {0})
  clear_from s k i zero = or_refused_with b s tt (delete s (e_list_meta_key k))
  clear_from s k i (suc n) = elim (delete s (e_list_key k i)) [
    | none ↦ (s, err write_refused)
    | some s' ↦ clear_from s' k (inc64 i) n
  ]

  unfoldable pub llclear_at : Txn → Bytes → Outcome Fetch (ℕ × ℕ) → Done b (Unit {0})
  llclear_at s k (ok (start, end)) =
      clear_from s k start (if below64 start end then minus64 end start else 0)
  llclear_at s k (err e) = (s, err (unread e))
  llclear_at s k panic = (s, panic)

  unfoldable pub llclear : Txn → Bytes → Done b (Unit {0})
  llclear s k = llclear_at s k (list_start_end b s k)
