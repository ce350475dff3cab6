-- ===== src/Store/Database/Durable.antt =====
-- A list of the database as a queue: every call is a transaction of its own.
use raft_project.Common.{
  ℕ, ◌+◌, ◌^◌, ◌<◌, ◌≡◌, refl, ap, ◌∙◌, inl, inr, some, List, [], ◌∷◌, ◌++◌, arith,
}
use raft_project.Common.Lists.{Bytes, length, length-append}
use raft_project.Common.Outcome.{Outcome, ok}
use raft_project.Store.{Badger, Willing}
use raft_project.Store.Lists.{e_list_meta_key, e_list_key, inc64, lrpush, llpop}
use raft_project.Store.Lists.Queue.{Items}
use raft_project.Store.Lists.Ends.{IsList, Leaves, list_push, list_llpop}
use raft_project.Store.Database.{Database, finished, db_lrpush, db_llpop}

module _ (b : Badger) where
  open b use {Txn, get}

  Items-same :
      (s s' : Txn) (k : Bytes) (i : ℕ) (xs : List Bytes)
      → ((j : Bytes) → get s' j ≡ get s j)
      → Items b s k i xs
      → Items b s' k i xs
  unfolding Items
  Items-same s s' k i [] same h = tt
  Items-same s s' k i (x ∷ xs) same h =
      (same (e_list_key k i) ∙ h.0, Items-same s s' k (inc64 i) xs same h.1)

  IsList-same :
      (s s' : Txn) (k : Bytes) (xs : List Bytes)
      → ((j : Bytes) → get s' j ≡ get s j)
      → IsList b s k xs
      → IsList b s' k xs
  IsList-same s s' k xs same (inl (absent, empty)) = inl (same (e_list_meta_key k) ∙ absent, empty)
  IsList-same s s' k xs same (inr (st, h)) = inr (
    st,
    record {
      word = h.word;
      bounds = same (e_list_meta_key k) ∙ h.bounds;
      items = Items-same s s' k st xs same h.items;
    },
  )

  module _ (w : Willing b) (base : Database b)
      (commits : (d : base.Data) (s : Txn) → (d' : base.Data) × (base.commit d s ≡ some d')) where
    -- A call on a list whose transaction is committed.
    committed-IsList :
        {A : Type 0} (d : base.Data) (r : b.Txn × Outcome _ A) (a : A) (k : Bytes) (xs : List Bytes)
        → Leaves b r a k xs
        → (d' : base.Data) × (finished b base d r ≡ ok (d', a)) × IsList b (base.begin d') k xs
    committed-IsList d r a k xs (s', e, h) =
        let (d', c) = commits d s' in
        (
          d',
          rw (e, c) refl,
          IsList-same s' (base.begin d') k xs (λ j. base.get-commit d d' s' j c) h,
        )

    -- A value that is pushed at the right end of a list of the database stands behind the values that are
    -- there, and the first of them is the one that is popped next at the left end. The list has less than
    -- 2^64 - 3 values, and the database takes every write and every commit.
    pub llpop-lrpush :
        (d : base.Data) (k x v : Bytes) (xs : List Bytes)
        → IsList b (base.begin d) k (x ∷ xs)
        → length xs + 4 < 2 ^ 64
        → (d1 : base.Data) × (d2 : base.Data) × (db_lrpush b base d k v ≡ ok (d1, length xs + 2))
          × (db_llpop b base d1 k ≡ ok (d2, x))
          × IsList b (base.begin d2) k (xs ++ v ∷ [])
    unfolding db_lrpush db_llpop
    llpop-lrpush d k x v xs h few =
        let (d1, pushed, h1) =
          committed-IsList d (lrpush b (base.begin d) k v) (length (x ∷ xs) + 1) k
            (x ∷ xs ++ v ∷ []) (list_push b w (base.begin d) k v (x ∷ xs) h (omega arith)).1 in
        let (d2, popped, h2) = committed-IsList d1 (llpop b (base.begin d1) k) x k (xs ++ v ∷ []) (
          list_llpop b w (base.begin d1) k (x ∷ (xs ++ v ∷ [])) h1
            (omega (arith, length-append xs (v ∷ [])))) in
        (d1, d2, pushed ∙ ap (λ n. ok (d1, n)) (omega arith), popped, h2)
