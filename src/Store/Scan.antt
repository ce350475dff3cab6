-- ===== src/Store/Scan.antt =====
-- The operations of until/store/bg/bg.go that go through the keys with a prefix. badger's iterators are
-- not part of the repository: they enter as `Iterator`.
pub mod Fields
use raft_project.Common.{
  ℕ, ◌+◌, ◌-◌, ◌%◌, Bool, ◌^◌, ◌<◌, ◌≡◌, ◌↔◌, refl, sym, ap, ◌∙◌, ◌⊎◌, inl, inr, Option, none, some,
  List, [], ◌∷◌, ◌++◌, arith,
}
use raft_project.Common.Tests.{ltb, leb, if◌then◌else◌}
use raft_project.Common.Lists.{Bytes, length, take, drop}
use raft_project.Common.Outcome.{Outcome, ok, err, panic, ◌>>=◌, and_then}
use raft_project.Codec.{e32func, le_decode, db32func}
use raft_project.Store.{Badger, Fetch, found, not_exist, failed, e_map_key, d_map_key}
use raft_project.Store.Sets.{e_set_key, d_set_key, e_zet_key, e_zet_score, u32_or_zero}

abbrev pub In : Bytes → List Bytes → Type 0
In k [] = ⊥
In k (x ∷ xs) = (x ≡ k) ⊎ In k xs

abbrev pub HasPrefix : Bytes → Bytes → Type 0
HasPrefix p key = (t : Bytes) × (key ≡ p ++ t)

-- An iteration over the keys of a transaction with a prefix, from a key on, in their order: it goes
-- through keys with values alone, and through all of them if it starts at the prefix.
pub record Iterator (b : Badger) : Type 0 where
  pub keys : b.Txn → Bytes → Bytes → List Bytes
  pub keys-found :
      (s : b.Txn) (p q key : Bytes)
      → In key (keys s p q)
      → HasPrefix p key × ((v : Bytes) × (b.get s key ≡ found v))
  pub found-keys :
      (s : b.Txn) (p t v : Bytes) → b.get s (p ++ t) ≡ found v → In (p ++ t) (keys s p p)

-- What a function gives for each key.
unfoldable pub each : {A : Type 0} → (Bytes → Outcome Fetch A) → List Bytes → Outcome Fetch (List A)
each f [] = ok []
each f (key ∷ ks) = let rest = each f ks in f key >>= λ a. rest >>= λ as'. ok (a ∷ as')

abbrev pub value_copy : Fetch → Outcome Fetch Bytes
value_copy (found v) = ok v
value_copy not_exist = err not_exist
value_copy failed = err failed

-- `buf[2:]`, `buf[:4]`, `buf[5+n:9+n]` and `buf[9+n:]`, which panic beyond the end.
unfoldable pub d_zet_score : Bytes → Outcome Fetch (ℕ × Bytes)
d_zet_score key =
    let buf = drop 2 key in
    let n = le_decode (take 4 buf) in
    let from = (5 + n) % 2 ^ 32 in
    let to = (9 + n) % 2 ^ 32 in
    if ltb (length key) 6
    then panic
    else if ltb to from
    then panic
    else if ltb (length buf) to
    then panic
    else ok (u32_or_zero (db32func (take (to - from) (drop from buf))), drop to buf)

-- 'sz' + klen + k + '+'
unfoldable pub zet_prefix : Bytes → Bytes
zet_prefix k = b's' ∷ b'z' ∷ (e32func (length k % 2 ^ 32) ++ (k ++ b'+' ∷ []))

-- `int32`s as words.
abbrev pub lt_i32 : ℕ → ℕ → Bool
lt_i32 a c = ltb ((a + 2 ^ 31) % 2 ^ 32) ((c + 2 ^ 31) % 2 ^ 32)

module _ (b : Badger) (it : Iterator b) where
  open b use {Txn, get, delete}

  unfoldable pub mkeys : Txn → Bytes → Outcome Fetch (List Bytes)
  mkeys s m = let k = e_map_key m [] in each d_map_key (it.keys s k k)

  unfoldable pub mvals : Txn → Bytes → Outcome Fetch (List Bytes)
  mvals s m = let k = e_map_key m [] in each (λ key. value_copy (get s key)) (it.keys s k k)

  abbrev pub copied : Txn → Bytes → Outcome Fetch (Bytes × Bytes)
  copied s key = d_map_key key >>= λ k. value_copy (get s key) >>= λ v. ok (k, v)

  unfoldable pub mkvs : Txn → Bytes → Outcome Fetch (List (Bytes × Bytes))
  mkvs s m = let k = e_map_key m [] in each (copied s) (it.keys s k k)

  unfoldable pub delete_all : Txn → List Bytes → Option Txn
  delete_all s [] = some s
  delete_all s (key ∷ ks) = and_then (delete s key) (λ s'. delete_all s' ks)

  unfoldable pub mclear : Txn → Bytes → Option Txn
  mclear s m = let k = e_map_key m [] in delete_all s (it.keys s k k)

  unfoldable pub sclear : Txn → Bytes → Option Txn
  sclear s k0 = let k = e_set_key k0 [] in delete_all s (it.keys s k k)

  unfoldable pub smembers : Txn → Bytes → Outcome Fetch (List Bytes)
  smembers s k0 = let k = e_set_key k0 [] in each d_set_key (it.keys s k k)

  abbrev pub or_failed : Option Txn → Outcome Fetch Txn
  or_failed none = err failed
  or_failed (some s) = ok s

  unfoldable pub delete_scores : Txn → Bytes → List Bytes → Outcome Fetch Txn
  delete_scores s k [] = ok s
  delete_scores s k (key ∷ ks) = d_zet_score key >>= λ (score, v).
      or_failed (and_then (delete s (e_zet_key k v)) (λ s'. delete s' (e_zet_score k v score)))
      >>= λ s'. delete_scores s' k ks

  unfoldable pub zclear : Txn → Bytes → Outcome Fetch Txn
  zclear s k = delete_scores s k (it.keys s (zet_prefix k) (zet_prefix k))

  -- The loop of `zrange`, which ends at the first score above the end.
  unfoldable pub scores_up_to : ℕ → List Bytes → Outcome Fetch (List Bytes)
  scores_up_to end [] = ok []
  scores_up_to end (key ∷ ks) =
      let rest = scores_up_to end ks in
      d_zet_score key >>= λ (score, v).
      if lt_i32 end score then ok [] else (rest >>= λ vs. ok (v ∷ vs))

  unfoldable pub zrange : Txn → Bytes → ℕ → ℕ → Outcome Fetch (List Bytes)
  zrange s k start end = scores_up_to end (it.keys s (zet_prefix k) (e_zet_score k [] start))
