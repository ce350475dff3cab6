-- ===== src/Store/Lists/Writes.antt =====
-- The writes of list operations of until/store/bg/bg.go, and the lists that they leave.
use raft_project.Common.{
  ℕ, ◌+◌, ◌%◌, ◌^◌, ◌<◌, ◌≡◌, ◌≢◌, sym, ap, ◌∙◌, some, List, [], ◌∷◌, ◌++◌, arith,
}
use raft_project.Common.Lists.{Bytes, bytes_eq_iff, length, length-append}
use raft_project.Common.Outcome.{ok}
use raft_project.Store.{Badger, found}
use raft_project.Store.Lists.{
  inc64, dec64, plus64, minus64, e_list_meta_key, e_list_meta_value, e_list_key, list_start_end,
}
use raft_project.Store.Lists.Queue.{
  d_list_meta_value-e_list_meta_value, list_key-ne, meta_key-ne, Items, Holds, Items-kept,
  Items-append,
}

pub inc64-dec64 : (i : ℕ) → i < 2 ^ 64 → inc64 (dec64 i) ≡ i
inc64-dec64 i h = omega arith

pub dec64-inc64 : (i : ℕ) → i < 2 ^ 64 → dec64 (inc64 i) ≡ i
dec64-inc64 i h = omega arith

-- The length that is given with a push.
pub inc64-minus64 :
    (st n : ℕ) → st < 2 ^ 64 → n + 2 < 2 ^ 64 → inc64 (minus64 (plus64 st n) st) ≡ n + 1
inc64-minus64 st n hs hn = omega arith

module _ (b : Badger) where
  open b use {Txn, get, put}

  pub list_start_end-Holds :
      (s : Txn) (k : Bytes) (st : ℕ) (xs : List Bytes)
      → Holds b s k st xs
      → list_start_end b s k ≡ ok (st, plus64 st (length xs))
  unfolding list_start_end
  list_start_end-Holds s k st xs h =
      rw (h.bounds, d_list_meta_value-e_list_meta_value st (plus64 st (length xs)))
        (ap (λ i. ok (i, plus64 st (length xs) % 2 ^ 64)) (omega (arith, h.word))
          ∙ ap (λ i. ok (st, i)) (omega arith))

  pub get-put_same : (s s' : Txn) (q v : Bytes) → put s q v ≡ some s' → get s' q ≡ found v
  get-put_same s s' q v p = ground (arith, b.get-put s s' q v q p, bytes_eq_iff q q)

  pub get-put_other :
      (s s' : Txn) (q v j : Bytes) → put s q v ≡ some s' → q ≢ j → get s' j ≡ get s j
  get-put_other s s' q v j p ne = ground (arith, b.get-put s s' q v j p, bytes_eq_iff q j)

  -- An entry has been written, and then the bounds.
  pub record Written (s s' : Txn) (k : Bytes) (e : ℕ) (v bounds : Bytes) : Type 0 where
    pub meta : get s' (e_list_meta_key k) ≡ found bounds
    pub entry : get s' (e_list_key k e) ≡ found v
    pub others : (j : ℕ) → j < 2 ^ 64 → j ≢ e → get s' (e_list_key k j) ≡ get s (e_list_key k j)

  pub puts-Written :
      (s s1 s2 : Txn) (k : Bytes) (e : ℕ) (v bounds : Bytes)
      → e < 2 ^ 64
      → put s (e_list_key k e) v ≡ some s1
      → put s1 (e_list_meta_key k) bounds ≡ some s2
      → Written s s2 k e v bounds
  puts-Written s s1 s2 k e v bounds he p1 p2 = record {
    meta = get-put_same s1 s2 (e_list_meta_key k) bounds p2;
    entry =
        get-put_other s1 s2 (e_list_meta_key k) bounds (e_list_key k e) p2 (meta_key-ne k e)
        ∙ get-put_same s s1 (e_list_key k e) v p1;
    others = λ j hj ne.
        get-put_other s1 s2 (e_list_meta_key k) bounds (e_list_key k j) p2 (meta_key-ne k j)
        ∙ get-put_other s s1 (e_list_key k e) v (e_list_key k j) p1
            (list_key-ne k e j he hj (λ eq. ne (sym eq)));
  }

  pub Written-front :
      (s s' : Txn) (k : Bytes) (st : ℕ) (v : Bytes) (xs : List Bytes)
      → st < 2 ^ 64
      → length xs + 2 < 2 ^ 64
      → Items b s k st xs
      → Written s s' k (dec64 st) v (e_list_meta_value (dec64 st) (plus64 st (length xs)))
      → Holds b s' k (dec64 st) (v ∷ xs)
  unfolding Items
  Written-front s s' k st v xs hs few items w = record {
    word = omega arith;
    bounds = w.meta ∙ ap (λ i. found (e_list_meta_value (dec64 st) i)) (omega arith);
    items = (
      w.entry,
      rw (inc64-dec64 st hs)
          (Items-kept b s s' k (dec64 st) st xs (omega arith) hs (omega arith) w.others items),
    );
  }

  pub Written-back :
      (s s' : Txn) (k : Bytes) (st : ℕ) (v : Bytes) (xs : List Bytes)
      → st < 2 ^ 64
      → length xs + 2 < 2 ^ 64
      → Items b s k st xs
      → Written s s' k
          (plus64 st (length xs))
          v
          (e_list_meta_value st (inc64 (plus64 st (length xs))))
      → Holds b s' k st (xs ++ v ∷ [])
  Written-back s s' k st v xs hs few items w = record {
    word = hs;
    bounds =
        w.meta
        ∙ ap (λ i. found (e_list_meta_value st i)) (omega (arith, length-append xs (v ∷ [])));
    items =
        Items-append b s' k st xs v hs
          (Items-kept b s s' k (plus64 st (length xs)) st xs (omega arith) hs (omega arith) w.others
            items)
          w.entry;
  }

  pub pops-Holds :
      (s s' : Txn) (k : Bytes) (i : ℕ) (xs : List Bytes)
      → i < 2 ^ 64
      → length xs + 2 < 2 ^ 64
      → Items b s k i xs
      → put s (e_list_meta_key k) (e_list_meta_value i (plus64 i (length xs))) ≡ some s'
      → Holds b s' k i xs
  pops-Holds s s' k i xs hi few items p = record {
    word = hi;
    bounds = get-put_same s s' (e_list_meta_key k) _ p;
    items =
        Items-kept b s s' k (plus64 i (length xs)) i xs (omega arith) hi (omega arith)
          (λ j hj ne. get-put_other s s' (e_list_meta_key k) _ (e_list_key k j) p (meta_key-ne k j))
          items;
  }
