-- ===== src/Store/Lists/Queue.antt =====
-- A list of until/store/bg/bg.go as a queue with two ends.
use raft_project.Common.{
  ℕ, suc, ◌+◌, ◌-◌, ◌%◌, ◌^◌, ◌<◌, ◌≤◌, ◌≡◌, ◌≢◌, refl, ap, ◌∙◌, List, [], ◌∷◌, ◌++◌, arith,
}
use raft_project.Common.Lists.{Bytes, length, length-append, take_at, drop, drop_at, take-all}
use raft_project.Common.Outcome.{ok}
use raft_project.Codec.{e64func, le_decode}
use raft_project.Codec.Words.{le_decode-le_encode8}
use raft_project.Store.{Badger, found}
use raft_project.Store.Lists.{
  inc64, plus64, e_list_meta_key, e_list_meta_value, d_list_meta_value, e_list_key,
}

pub plus64-zero : (i : ℕ) → i < 2 ^ 64 → plus64 i 0 ≡ i
plus64-zero i h = omega arith

pub plus64-inc64 : (i n : ℕ) → plus64 (inc64 i) n ≡ plus64 i (suc n)
plus64-inc64 i n = omega arith

le_decode-e64func : (n : ℕ) → le_decode (e64func n) ≡ n % 2 ^ 64
unfolding e64func
le_decode-e64func n = le_decode-le_encode8 n

length-e64func : (n : ℕ) → length (e64func n) ≡ 8
unfolding e64func
length-e64func n = omega arith

pub d_list_meta_value-e_list_meta_value :
    (x y : ℕ) → d_list_meta_value (e_list_meta_value x y) ≡ ok (x % 2 ^ 64, y % 2 ^ 64)
unfolding d_list_meta_value e_list_meta_value
d_list_meta_value-e_list_meta_value x y =
    rw
      (
        length-append (e64func x) (e64func y),
        length-e64func x,
        length-e64func y,
        take_at (e64func x) (e64func y) (length-e64func x),
        drop_at (e64func x) (e64func y) (length-e64func x),
        take-all 8 (e64func y) (omega (arith, length-e64func y)),
        le_decode-e64func x,
        le_decode-e64func y,
      )
      refl

length-e_list_key : (k : Bytes) (i : ℕ) → length (e_list_key k i) ≡ length k + 9
unfolding e_list_key
length-e_list_key k i = omega (arith, length-append k (e64func i), length-e64func i)

length-e_list_meta_key : (k : Bytes) → length (e_list_meta_key k) ≡ length k + 1
unfolding e_list_meta_key
length-e_list_meta_key k = omega arith

-- The index of a key, read back.
index_of : Bytes → Bytes → ℕ
index_of k [] = 0
index_of k (c ∷ cs) = le_decode (drop (length k) cs)

index_of-e_list_key : (k : Bytes) (i : ℕ) → index_of k (e_list_key k i) ≡ i % 2 ^ 64
unfolding index_of e_list_key
index_of-e_list_key k i = rw (drop_at k (e64func i) refl) (le_decode-e64func i)

pub list_key-ne :
    (k : Bytes) (i j : ℕ) → i < 2 ^ 64 → j < 2 ^ 64 → i ≢ j → e_list_key k i ≢ e_list_key k j
list_key-ne k i j hi hj ne e =
    omega (arith, ap (index_of k) e, index_of-e_list_key k i, index_of-e_list_key k j)

pub meta_key-ne : (k : Bytes) (i : ℕ) → e_list_meta_key k ≢ e_list_key k i
meta_key-ne k i e = omega (arith, ap length e, length-e_list_key k i, length-e_list_meta_key k)

module _ (b : Badger) where
  open b use {Txn, get, put}

  -- The entries from an index on.
  unfoldable pub Items : Txn → Bytes → ℕ → List Bytes → Type 0
  Items s k i [] = Unit
  Items s k i (x ∷ xs) = (get s (e_list_key k i) ≡ found x) × Items s k (inc64 i) xs

  -- A list that starts at an index, with its elements.
  pub record Holds (s : Txn) (k : Bytes) (start : ℕ) (xs : List Bytes) : Type 0 where
    pub word : start < 2 ^ 64
    pub bounds :
        get s (e_list_meta_key k) ≡ found (e_list_meta_value start (plus64 start (length xs)))
    pub items : Items s k start xs

  pub Items-kept :
      (s s' : Txn) (k : Bytes) (e i : ℕ) (xs : List Bytes)
      → e < 2 ^ 64
      → i < 2 ^ 64
      → length xs ≤ (e + 2 ^ 64 - i) % 2 ^ 64
      → ((j : ℕ) → j < 2 ^ 64 → j ≢ e → get s' (e_list_key k j) ≡ get s (e_list_key k j))
      → Items s k i xs
      → Items s' k i xs
  unfolding Items
  Items-kept s s' k e i [] he hi far same h = tt
  Items-kept s s' k e i (x ∷ xs) he hi far same h = (
    same i hi (λ eq. omega arith) ∙ h.0,
    Items-kept s s' k e (inc64 i) xs he (omega arith) (omega arith) same h.1,
  )

  pub Items-append :
      (s : Txn) (k : Bytes) (i : ℕ) (xs : List Bytes) (v : Bytes)
      → i < 2 ^ 64
      → Items s k i xs
      → get s (e_list_key k (plus64 i (length xs))) ≡ found v
      → Items s k i (xs ++ v ∷ [])
  unfolding Items
  Items-append s k i [] v hi h e = (rw (← plus64-zero i hi) e, tt)
  Items-append s k i (x ∷ xs) v hi h e =
      (h.0, Items-append s k (inc64 i) xs v (omega arith) h.1 (rw (plus64-inc64 i (length xs)) e))

  pub Items-append_inverse :
      (s : Txn) (k : Bytes) (i : ℕ) (xs : List Bytes) (v : Bytes)
      → i < 2 ^ 64
      → Items s k i (xs ++ v ∷ [])
      → Items s k i xs × (get s (e_list_key k (plus64 i (length xs))) ≡ found v)
  unfolding Items
  Items-append_inverse s k i [] v hi h = (tt, rw (plus64-zero i hi) h.0)
  Items-append_inverse s k i (x ∷ xs) v hi h =
      let (rest, last) = Items-append_inverse s k (inc64 i) xs v (omega arith) h.1 in
      ((h.0, rest), rw (← plus64-inc64 i (length xs)) last)
