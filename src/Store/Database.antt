-- ===== src/Store/Database.antt =====
-- The methods of `bgStore` of until/store/bg/bg.go: each one begins a transaction, which it discards if
-- something fails in it, and commits it if it may write.
pub mod Durable
use raft_project.Common.{ℕ, Bool, Option, none, some, List, []}
use raft_project.Common.Lists.{Bytes}
use raft_project.Common.Outcome.{Outcome, ok, err, panic, ◌>>=◌, and_then}
use raft_project.Common.{◌≡◌}
use raft_project.Store.{Badger, Fetch, failed, mget, mset, mdel}
use raft_project.Store.Scan.{Iterator, mkeys, mvals, mkvs, mclear, sclear, smembers, zclear, zrange}
use raft_project.Store.Lists.{ListError, write_refused, Done, llen, llpush, lrpush, llpop, lrpop}
use raft_project.Store.Lists.Entries.{lset, lindex, lrange, llclear}
use raft_project.Store.Sets.{sadd, sdel, selem, zadd, zdel, zscore}

-- A badger database. A transaction reads what has been committed; a commit that is taken makes what its
-- transaction has written readable.
pub record Database (b : Badger) : Type 1 where
  pub Data : Type 0
  pub begin : Data → b.Txn
  pub commit : Data → b.Txn → Option Data
  pub get-commit :
      (d d' : Data) (s : b.Txn) (k : Bytes) → commit d s ≡ some d' → b.get (begin d') k ≡ b.get s k

module _ (b : Badger) (base : Database b) where
  open base use {Data, begin, commit}

  abbrev pub updated : Data → Option b.Txn → Option Data
  updated d written = and_then written (commit d)

  abbrev pub with_value : {A : Type 0} → A → Option Data → Outcome ListError (Data × A)
  with_value a none = err write_refused
  with_value a (some d) = ok (d, a)

  abbrev pub finished : {A : Type 0} → Data → Done b A → Outcome ListError (Data × A)
  finished d (s, ok a) = with_value a (commit d s)
  finished d (s, err e) = err e
  finished d (s, panic) = panic

  unfoldable pub db_del : Data → Bytes → Option Data
  db_del d k = updated d (b.delete (begin d) k)

  unfoldable pub db_set : Data → Bytes → Bytes → Option Data
  db_set d k v = updated d (b.put (begin d) k v)

  unfoldable pub db_get : Data → Bytes → Fetch
  db_get d k = b.get (begin d) k

  unfoldable pub db_mdel : Data → Bytes → Bytes → Option Data
  db_mdel d m k = updated d (mdel b (begin d) m k)

  unfoldable pub db_mset : Data → Bytes → Bytes → Bytes → Option Data
  db_mset d m k v = updated d (mset b (begin d) m k v)

  unfoldable pub db_mget : Data → Bytes → Bytes → Fetch
  db_mget d m k = mget b (begin d) m k

  unfoldable pub db_llen : Data → Bytes → Outcome Fetch ℕ
  db_llen d k = llen b (begin d) k

  unfoldable pub db_lclear : Data → Bytes → Outcome ListError (Data × Unit {0})
  db_lclear d k = finished d (llclear b (begin d) k)

  unfoldable pub db_llpush : Data → Bytes → Bytes → Outcome ListError (Data × ℕ)
  db_llpush d k v = finished d (llpush b (begin d) k v)

  unfoldable pub db_llpop : Data → Bytes → Outcome ListError (Data × Bytes)
  db_llpop d k = finished d (llpop b (begin d) k)

  unfoldable pub db_lrpush : Data → Bytes → Bytes → Outcome ListError (Data × ℕ)
  db_lrpush d k v = finished d (lrpush b (begin d) k v)

  unfoldable pub db_lrpop : Data → Bytes → Outcome ListError (Data × Bytes)
  db_lrpop d k = finished d (lrpop b (begin d) k)

  unfoldable pub db_lrange : Data → Bytes → ℕ → ℕ → Outcome ListError (List Bytes)
  db_lrange d k start end = lrange b (begin d) k start end

  unfoldable pub db_lset : Data → Bytes → ℕ → Bytes → Outcome ListError (Data × Unit {0})
  db_lset d k idx v = finished d (lset b (begin d) k idx v)

  unfoldable pub db_lindex : Data → Bytes → ℕ → Outcome ListError Bytes
  db_lindex d k idx = lindex b (begin d) k idx

  unfoldable pub db_sdel : Data → Bytes → Bytes → Option Data
  db_sdel d k v = updated d (sdel b (begin d) k v)

  unfoldable pub db_sadd : Data → Bytes → Bytes → Option Data
  db_sadd d k v = updated d (sadd b (begin d) k v)

  unfoldable pub db_selem : Data → Bytes → Bytes → Outcome Fetch Bool
  db_selem d k v = selem b (begin d) k v

  unfoldable pub db_zdel : Data → Bytes → Bytes → Option Data
  db_zdel d k v = updated d (zdel b (begin d) k v)

  unfoldable pub db_zadd : Data → Bytes → ℕ → Bytes → Option Data
  db_zadd d k score v = updated d (zadd b (begin d) k score v)

  unfoldable pub db_zscore : Data → Bytes → Bytes → Outcome Fetch ℕ
  db_zscore d k v = zscore b (begin d) k v

module _ (b : Badger) (it : Iterator b) (base : Database b) where
  open base use {Data, begin, commit}

  unfoldable pub db_mkeys : Data → Bytes → Outcome Fetch (List Bytes)
  db_mkeys d m = mkeys b it (begin d) m

  unfoldable pub db_mvals : Data → Bytes → Outcome Fetch (List Bytes)
  db_mvals d m = mvals b it (begin d) m

  unfoldable pub db_mkvs : Data → Bytes → Outcome Fetch (List (Bytes × Bytes))
  db_mkvs d m = mkvs b it (begin d) m

  unfoldable pub db_mclear : Data → Bytes → Option Data
  db_mclear d m = updated b base d (mclear b it (begin d) m)

  unfoldable pub db_sclear : Data → Bytes → Option Data
  db_sclear d k = updated b base d (sclear b it (begin d) k)

  unfoldable pub db_smembers : Data → Bytes → Outcome Fetch (List Bytes)
  db_smembers d k = smembers b it (begin d) k

  abbrev pub or_uncommitted : Option Data → Outcome Fetch Data
  or_uncommitted none = err failed
  or_uncommitted (some d) = ok d

  unfoldable pub db_zclear : Data → Bytes → Outcome Fetch Data
  db_zclear d k = zclear b it (begin d) k >>= λ s. or_uncommitted (commit d s)

  unfoldable pub db_zrange : Data → Bytes → ℕ → ℕ → Outcome Fetch (List Bytes)
  db_zrange d k start end = zrange b it (begin d) k start end
