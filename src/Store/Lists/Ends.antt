-- ===== src/Store/Lists/Ends.antt =====
-- What `Llpush`, `Lrpush`, `Llpop` and `Lrpop` of until/store/bg/bg.go do to a list.
use raft_project.Common.{
  ℕ, ◌+◌, ◌^◌, ◌<◌, ◌≡◌, ◌⊎◌, inl, inr, refl, ap, true, false, some, List, [], ◌∷◌, ◌++◌, arith,
}
use raft_project.Common.Tests.{◌==◌}
use raft_project.Common.Lists.{Bytes, length, length-append}
use raft_project.Common.Outcome.{ok, err}
use raft_project.Store.{Badger, Willing, not_exist}
use raft_project.Store.Lists.{
  inc64, dec64, plus64, e_list_meta_key, e_list_meta_value, e_list_key, ListError, out_of_size,
  unread, Done, list_start_end, lnew, set_bounds, llpush, lrpush, llpush_at, lrpush_at, llpop,
  lrpop, llpop_at, lrpop_at,
}
use raft_project.Store.Lists.Queue.{Items, Holds, Items-append_inverse}
use raft_project.Store.Lists.Writes.{
  inc64-minus64, list_start_end-Holds, puts-Written, Written-front, Written-back, pops-Holds,
  get-put_same,
}

module _ (b : Badger) where
  open b use {Txn, get, put}

  -- A list that is there or that is not, which is an empty one.
  abbrev pub IsList : Txn → Bytes → List Bytes → Type 0
  IsList s k xs =
      ((get s (e_list_meta_key k) ≡ not_exist) × (xs ≡ [])) ⊎ ((st : ℕ) × Holds b s k st xs)

  -- A call that succeeds with a value, and the list that it leaves.
  abbrev pub Leaves : {A : Type 0} → Done b A → A → Bytes → List Bytes → Type 0
  Leaves r a k xs = (s' : Txn) × (r ≡ (s', ok a)) × IsList s' k xs

  -- A call that fails and leaves the transaction as it was.
  abbrev pub Refused : {A : Type 0} → Done b A → Txn → Type 0
  Refused r s = (e : ListError) × (r ≡ (s, err e))

  -- The left end of a list is taken from it.
  abbrev pub TakesFirst : Done b Bytes → Txn → Bytes → List Bytes → Type 0
  TakesFirst r s k [] = Refused r s
  TakesFirst r s k (x ∷ xs) = Leaves r x k xs

  module _ (w : Willing b) where
    llpush_at_lem :
        (s : Txn) (k v : Bytes) (st : ℕ) (xs : List Bytes)
        → Holds b s k st xs
        → length xs + 2 < 2 ^ 64
        → Leaves (llpush_at b s k v st (plus64 st (length xs))) (length xs + 1) k (v ∷ xs)
    unfolding llpush_at set_bounds
    llpush_at_lem s k v st xs h few =
        let end = plus64 st (length xs) in
        let (s1, p1) = w.puts s (e_list_key k (dec64 st)) v in
        let (s2, p2) = w.puts s1 (e_list_meta_key k) (e_list_meta_value (dec64 st) end) in
        let room : (dec64 st == end) ≡ false = ground (arith, h.word) in
        (
          s2,
          rw (room, p1, p2) (ap (λ n. (s2, ok n)) (inc64-minus64 st (length xs) h.word few)),
          inr (
            dec64 st,
            Written-front b s s2 k st v xs h.word few h.items (
                puts-Written b s s1 s2 k (dec64 st) v (e_list_meta_value (dec64 st) end)
                  (omega arith) p1 p2),
          ),
        )

    lrpush_at_lem :
        (s : Txn) (k v : Bytes) (st : ℕ) (xs : List Bytes)
        → Holds b s k st xs
        → length xs + 2 < 2 ^ 64
        → Leaves (lrpush_at b s k v st (plus64 st (length xs))) (length xs + 1) k (xs ++ v ∷ [])
    unfolding lrpush_at set_bounds
    lrpush_at_lem s k v st xs h few =
        let end = plus64 st (length xs) in
        let (s1, p1) = w.puts s (e_list_key k end) v in
        let (s2, p2) = w.puts s1 (e_list_meta_key k) (e_list_meta_value st (inc64 end)) in
        let room : (st == inc64 end) ≡ false = ground (arith, h.word) in
        (
          s2,
          rw (room, p1, p2) (ap (λ n. (s2, ok n)) (inc64-minus64 st (length xs) h.word few)),
          inr (
            st,
            Written-back b s s2 k st v xs h.word few h.items (
                puts-Written b s s1 s2 k end v (e_list_meta_value st (inc64 end)) (omega arith) p1
                  p2),
          ),
        )

    lnew-Holds :
        (s s0 : Txn) (k : Bytes)
        → put s (e_list_meta_key k) (e_list_meta_value 0 0) ≡ some s0
        → Holds b s0 k 0 []
    unfolding Items
    lnew-Holds s s0 k p = record {
      word = omega arith;
      bounds = get-put_same b s s0 (e_list_meta_key k) (e_list_meta_value 0 0) p;
      items = tt;
    }

    absent-bounds :
        (s : Txn) (k : Bytes)
        → get s (e_list_meta_key k) ≡ not_exist
        → list_start_end b s k ≡ err not_exist
    unfolding list_start_end
    absent-bounds s k absent = rw absent refl

    -- A value is pushed at the left or at the right end of a list of less than 2^64 - 2 elements, which need
    -- not be there, by a transaction that takes every write: each call gives the list's new length, and the
    -- list then has the value before all its elements, or after them.
    pub list_push :
        (s : Txn) (k v : Bytes) (xs : List Bytes)
        → IsList s k xs
        → length xs + 2 < 2 ^ 64
        → Leaves (llpush b s k v) (length xs + 1) k (v ∷ xs)
          × Leaves (lrpush b s k v) (length xs + 1) k (xs ++ v ∷ [])
    unfolding llpush lrpush lnew
    list_push s k v xs (inl (absent, empty)) few =
        let (s0, p0) = w.puts s (e_list_meta_key k) (e_list_meta_value 0 0) in
        rw (empty, absent-bounds s k absent, p0)
          (
            llpush_at_lem s0 k v 0 [] (lnew-Holds s s0 k p0) (omega arith),
            lrpush_at_lem s0 k v 0 [] (lnew-Holds s s0 k p0) (omega arith),
          )
    list_push s k v xs (inr (st, h)) few =
        rw (list_start_end-Holds b s k st xs h)
          (llpush_at_lem s k v st xs h few, lrpush_at_lem s k v st xs h few)

    -- A list of less than 2^64 - 2 elements gives up its first element, and is then the rest; an empty one,
    -- or one that is not there, is refused and nothing is written.
    pub list_llpop :
        (s : Txn) (k : Bytes) (xs : List Bytes)
        → IsList s k xs
        → length xs + 2 < 2 ^ 64
        → TakesFirst (llpop b s k) s k xs
    unfolding llpop llpop_at set_bounds Items
    list_llpop s k xs (inl (absent, empty)) few =
        rw (empty, absent-bounds s k absent) (unread not_exist, refl)
    list_llpop s k [] (inr (st, h)) few =
        let same : (st == plus64 st 0) ≡ true = ground (arith, h.word) in
        rw (list_start_end-Holds b s k st [] h, same) (out_of_size, refl)
    list_llpop s k (x ∷ xs) (inr (st, h)) few =
        let end = plus64 st (length (x ∷ xs)) in
        let (s1, p1) = w.puts s (e_list_meta_key k) (e_list_meta_value (inc64 st) end) in
        let more : (st == end) ≡ false = ground (arith, h.word) in
        let shift : plus64 (inc64 st) (length xs) ≡ end = omega arith in
        (
          s1,
          rw (list_start_end-Holds b s k st (x ∷ xs) h, more, h.items.0, p1) refl,
          inr (
            inc64 st,
            pops-Holds b s s1 k (inc64 st) xs (omega arith) (omega arith) h.items.1 (rw shift p1),
          ),
        )

    -- A list that is not empty, of less than 2^64 - 2 elements, gives up its last element, and is then the
    -- elements before it.
    list_lrpop :
        (s : Txn) (k x : Bytes) (xs : List Bytes)
        → IsList s k (xs ++ x ∷ [])
        → length xs + 3 < 2 ^ 64
        → Leaves (lrpop b s k) x k xs
    unfolding lrpop lrpop_at set_bounds
    list_lrpop s k x [] (inl (absent, empty)) few = cc
    list_lrpop s k x (y ∷ xs) (inl (absent, empty)) few = cc
    list_lrpop s k x xs (inr (st, h)) few =
        let end = plus64 st (length xs) in
        let (s1, p1) = w.puts s (e_list_meta_key k) (e_list_meta_value st end) in
        let more : (st == plus64 st (length (xs ++ x ∷ []))) ≡ false =
          ground (arith, h.word, length-append xs (x ∷ [])) in
        let last : dec64 (plus64 st (length (xs ++ x ∷ []))) ≡ end =
          omega (arith, length-append xs (x ∷ [])) in
        let (rest, entry) = Items-append_inverse b s k st xs x h.word h.items in
        (
          s1,
          rw (list_start_end-Holds b s k st (xs ++ x ∷ []) h, more, last, entry, p1) refl,
          inr (st, pops-Holds b s s1 k st xs h.word (omega arith) rest p1),
        )
