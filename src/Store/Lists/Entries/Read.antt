-- ===== src/Store/Lists/Entries/Read.antt =====
-- What `Lindex`, `Lset`, `Lrange` and `Lclear` of until/store/bg/bg.go see of a list.
use raft_project.Common.{
  ℕ, zero, suc, ◌+◌, ◌-◌, ◌%◌, ◌^◌, ◌<◌, ◌≡◌, refl, sym, ap, ◌∙◌, false, Option, none, some, List,
  [], ◌∷◌, ◌++◌, arith,
}
use raft_project.Common.Lists.{Bytes, bytes_eq_iff, length}
use raft_project.Common.Outcome.{ok}
use raft_project.Store.{Badger, Willing, not_exist}
use raft_project.Store.Lists.{
  inc64, plus64, e_list_meta_key, e_list_key, item_of, bounds_of, or_refused_with, list_start_end,
}
use raft_project.Store.Lists.Queue.{Items, Holds, meta_key-ne, plus64-zero, plus64-inc64}
use raft_project.Store.Lists.Writes.{list_start_end-Holds, get-put_same, get-put_other}
use raft_project.Store.Lists.Entries.{
  counted, outside, rounds, range_start, range_end, with_item, lset, lset_at, lindex, lindex_at,
  range_from, lrange, lrange_at, clear_from, llclear, llclear_at,
}

-- The indices of a list, and the one before it, do not pass the largest `int64`.
abbrev pub InOrder : ℕ → ℕ → Type 0
InOrder st n = (0 < (st + 2 ^ 63) % 2 ^ 64) × ((st + 2 ^ 63) % 2 ^ 64 + n < 2 ^ 64)

inside_lem :
    (st n i : ℕ)
    → st < 2 ^ 64
    → InOrder st n
    → i < n
    → n < 2 ^ 63
    → outside st (plus64 st n) (counted st (plus64 st n) i) ≡ false
inside_lem st n i hs ordered hi few = ground (arith, ordered.0, ordered.1)

-- The indices and the rounds of a range up to the last element, and up to the end.
range_start_zero : (st n : ℕ) → st < 2 ^ 64 → InOrder st n → range_start st (plus64 st n) 0 ≡ st
unfolding range_start
range_start_zero st n hs ordered = ground (arith, ordered.0, ordered.1)

range_end_last :
    (st n : ℕ)
    → st < 2 ^ 64
    → InOrder st n
    → n < 2 ^ 63
    → rounds st (range_end st (plus64 st n) (2 ^ 64 - 1)) ≡ n
unfolding rounds range_end
range_end_last st n hs ordered few = ground (arith, ordered.0, ordered.1)

range_end_length :
    (st n : ℕ)
    → st < 2 ^ 64
    → InOrder st n
    → n < 2 ^ 63
    → rounds st (range_end st (plus64 st n) n) ≡ suc n
unfolding rounds range_end
range_end_length st n hs ordered few = ground (arith, ordered.0, ordered.1)

module _ (b : Badger) where
  open b use {Txn, get, put, delete}

  range_all :
      (s : Txn) (k : Bytes) (j : ℕ) (ys : List Bytes)
      → Items b s k j ys
      → range_from b s k j (length ys) ≡ ys
  unfolding Items range_from
  range_all s k j [] items = refl
  range_all s k j (y ∷ ys) items =
      rw items.0 (ap (λ vs. y ∷ vs) (range_all s k (inc64 j) ys items.1))

  range_all_more :
      (s : Txn) (k : Bytes) (j : ℕ) (ys : List Bytes)
      → j < 2 ^ 64
      → Items b s k j ys
      → range_from b s k j (suc (length ys))
        ≡ ys ++ with_item (get s (e_list_key k (plus64 j (length ys)))) []
  unfolding Items range_from
  range_all_more s k j [] hj items = rw (plus64-zero j hj) refl
  range_all_more s k j (y ∷ ys) hj items =
      rw (items.0, ← plus64-inc64 j (length ys))
        (ap (λ vs. y ∷ vs) (range_all_more s k (inc64 j) ys (omega arith) items.1))

  -- The whole of a list, by the indices 0 and -1, is its elements in their order; by the indices 0 and the
  -- list's length it is the elements and, if there is one, the entry after them, which is no element.
  pub lrange_lem :
      (s : Txn) (k : Bytes) (st : ℕ) (xs : List Bytes)
      → Holds b s k st xs
      → InOrder st (length xs)
      → length xs < 2 ^ 63
      → (lrange b s k 0 (2 ^ 64 - 1) ≡ ok xs)
        × (lrange b s k 0 (length xs)
            ≡ ok (xs ++ with_item (get s (e_list_key k (plus64 st (length xs)))) []))
  unfolding lrange lrange_at
  lrange_lem s k st xs h ordered few =
      rw
        (
          list_start_end-Holds b s k st xs h,
          range_start_zero st (length xs) h.word ordered,
          range_end_last st (length xs) h.word ordered few,
          range_end_length st (length xs) h.word ordered few,
        )
        (ap ok (range_all s k st xs h.items), ap ok (range_all_more s k st xs h.word h.items))

  stored : (s s' : Txn) (o : Option Txn) → or_refused_with b s tt o ≡ (s', ok tt) → o ≡ some s'
  stored s s' none e = cc
  stored s s' (some s1) e = cc

  at_index : ℕ → List Bytes → ℕ → ℕ
  at_index st xs i = plus64 (counted st (plus64 st (length xs)) i) st

  lset_inside :
      (s : Txn) (k v : Bytes) (st : ℕ) (xs : List Bytes) (i : ℕ)
      → Holds b s k st xs
      → InOrder st (length xs)
      → length xs < 2 ^ 63
      → i < length xs
      → lset b s k i v ≡ or_refused_with b s tt (put s (e_list_key k (at_index st xs i)) v)
  unfolding lset lset_at at_index
  lset_inside s k v st xs i h ordered few hi =
      rw (list_start_end-Holds b s k st xs h, inside_lem st (length xs) i h.word ordered hi few)
        refl

  lindex_inside :
      (s : Txn) (k : Bytes) (st : ℕ) (xs : List Bytes) (i : ℕ)
      → list_start_end b s k ≡ ok (st, plus64 st (length xs))
      → st < 2 ^ 64
      → InOrder st (length xs)
      → length xs < 2 ^ 63
      → i < length xs
      → lindex b s k i ≡ item_of (get s (e_list_key k (at_index st xs i)))
  unfolding lindex lindex_at at_index
  lindex_inside s k st xs i e hs ordered few hi =
      rw (e, inside_lem st (length xs) i hs ordered hi few) refl

  list_start_end_kept :
      (s s' : Txn) (k v : Bytes) (i : ℕ)
      → put s (e_list_key k i) v ≡ some s'
      → list_start_end b s' k ≡ list_start_end b s k
  unfolding list_start_end
  list_start_end_kept s s' k v i p =
      ap bounds_of (
        get-put_other b s s' (e_list_key k i) v (e_list_meta_key k) p
          (λ e. meta_key-ne k i (sym e)))

  -- What is set at an index that counts from the left is read back at that index, wherever the list starts.
  lindex-lset :
      (s s' : Txn) (k v : Bytes) (st : ℕ) (xs : List Bytes) (i : ℕ)
      → Holds b s k st xs
      → InOrder st (length xs)
      → length xs < 2 ^ 63
      → i < length xs
      → lset b s k i v ≡ (s', ok tt)
      → lindex b s' k i ≡ ok v
  lindex-lset s s' k v st xs i h ordered few hi e =
      let p =
        stored s s' (put s (e_list_key k (at_index st xs i)) v)
          (sym (lset_inside s k v st xs i h ordered few hi) ∙ e) in
      lindex_inside s' k st xs i
        (list_start_end_kept s s' k v (at_index st xs i) p ∙ list_start_end-Holds b s k st xs h)
        h.word ordered few hi
      ∙ ap item_of (get-put_same b s s' (e_list_key k (at_index st xs i)) v p)

  clear_from_lem :
      (w : Willing b) (s : Txn) (k : Bytes) (i n : ℕ)
      → (s' : Txn) × (clear_from b s k i n ≡ (s', ok tt)) × (get s' (e_list_meta_key k) ≡ not_exist)
  unfolding clear_from
  clear_from_lem w s k i zero =
      let (s1, p1) = w.deletes s (e_list_meta_key k) in
      (
        s1,
        rw p1 refl,
        ground (
          arith,
          b.get-delete s s1 (e_list_meta_key k) (e_list_meta_key k) p1,
          bytes_eq_iff (e_list_meta_key k) (e_list_meta_key k),
        ),
      )
  clear_from_lem w s k i (suc n) =
      let (s1, p1) = w.deletes s (e_list_key k i) in
      rw (clear_from, p1) (clear_from_lem w s1 k (inc64 i) n)

  -- A list that is cleared by a transaction that takes every write is empty, and is not there any more.
  list_llclear :
      (w : Willing b) (s : Txn) (k : Bytes) (st : ℕ) (xs : List Bytes)
      → Holds b s k st xs
      → (s' : Txn) × (llclear b s k ≡ (s', ok tt)) × (get s' (e_list_meta_key k) ≡ not_exist)
  unfolding llclear llclear_at
  list_llclear w s k st xs h = rw (list_start_end-Holds b s k st xs h) (clear_from_lem w s k st _)
