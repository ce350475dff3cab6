-- ===== src/Store/Sets.antt =====
-- The sets and sorted sets of until/store/bg/bg.go, without their iterations: an entry for each member,
-- and for a sorted set one more for each score.
pub mod Members
use raft_project.Common.{ℕ, ◌+◌, ◌%◌, ◌^◌, Bool, true, false, Option, none, some, [], ◌∷◌, ◌++◌}
use raft_project.Common.Lists.{Bytes, length}
use raft_project.Common.Outcome.{Outcome, ok, err, panic, and_then}
use raft_project.Codec.{e32func, eb32func, d32func, LengthError}
use raft_project.Store.{Badger, Fetch, found, not_exist, failed, d_map_key}

-- 's' + klen + k + '+' + v
unfoldable pub e_set_key : Bytes → Bytes → Bytes
e_set_key k v = b's' ∷ (e32func (length k % 2 ^ 32) ++ (k ++ b'+' ∷ v))

-- The code of `dMapKey`.
unfoldable pub d_set_key : Bytes → Outcome Fetch Bytes
d_set_key buf = d_map_key buf

-- 'z' + klen + k + '+' + v
unfoldable pub e_zet_key : Bytes → Bytes → Bytes
e_zet_key k v = b'z' ∷ (e32func (length k % 2 ^ 32) ++ (k ++ b'+' ∷ v))

-- 'sz' + klen + k + '+' + score + v
unfoldable pub e_zet_score : Bytes → Bytes → ℕ → Bytes
e_zet_score k v score =
    b's' ∷ b'z' ∷ (e32func (length k % 2 ^ 32) ++ (k ++ b'+' ∷ (eb32func score ++ v)))

-- `x, _ := D32func(buf)`
abbrev pub u32_or_zero : Outcome LengthError ℕ → ℕ
u32_or_zero (ok n) = n
u32_or_zero (err e) = 0
u32_or_zero panic = 0

abbrev pub member : Fetch → Outcome Fetch Bool
member (found v) = ok true
member not_exist = ok false
member failed = err failed

abbrev pub score_of : Fetch → Outcome Fetch ℕ
score_of (found v) = ok (u32_or_zero (d32func v))
score_of not_exist = err not_exist
score_of failed = err failed

module _ (b : Badger) where
  open b use {Txn, get, put, delete}

  unfoldable pub sdel : Txn → Bytes → Bytes → Option Txn
  sdel s k v = delete s (e_set_key k v)

  unfoldable pub sadd : Txn → Bytes → Bytes → Option Txn
  sadd s k v = put s (e_set_key k v) []

  unfoldable pub selem : Txn → Bytes → Bytes → Outcome Fetch Bool
  selem s k v = member (get s (e_set_key k v))

  -- Scores are `int32`s, as words.
  unfoldable pub zadd : Txn → Bytes → ℕ → Bytes → Option Txn
  zadd s k score v =
      and_then (put s (e_zet_key k v) (e32func score)) (λ s'. put s' (e_zet_score k v score) [])

  unfoldable pub zscore : Txn → Bytes → Bytes → Outcome Fetch ℕ
  zscore s k v = score_of (get s (e_zet_key k v))

  -- `none` is an error.
  abbrev pub removed : Txn → Bytes → Bytes → Outcome Fetch ℕ → Option Txn
  removed s k v (ok score) =
      and_then (delete s (e_zet_key k v)) (λ s'. delete s' (e_zet_score k v score))
  removed s k v (err e) = none
  removed s k v panic = none

  unfoldable pub zdel : Txn → Bytes → Bytes → Option Txn
  zdel s k v = removed s k v (score_of (get s (e_zet_key k v)))
