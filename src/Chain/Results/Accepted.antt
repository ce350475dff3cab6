-- ===== src/Chain/Results/Accepted.antt =====
-- A block that pays what is due passes `Checkresults`.
use raft_project.Common.{
  ℕ, ◌≡◌, refl, inl, inr, Bool, true, Option, none, some, List, [], ◌∷◌, arith,
}
use raft_project.Common.Tests.{Bool-cases}
use raft_project.Common.Lists.{Bytes, bytes_eq, bytes_eq_iff, bytes_eq-false→ne, length, All}
use raft_project.Common.Outcome.{ok}
use raft_project.Common.Dict.{Dict, lookup, insert}
use raft_project.Store.{Badger}
use raft_project.Transaction.{Transaction}
use raft_project.Contract.Exec.{Db}
use raft_project.Chain.{add_u64}
use raft_project.Chain.Distr.{MinerTx, distr}
use raft_project.Chain.Block.{Blocks}
use raft_project.Chain.Results.{
  blocks_change, paid_to, add_payment, payments, same_payments, results_map, calculate,
  calculation_results, check_script, check_results,
}
use raft_project.Chain.Results.Unchecked.{
  Apart, insert-Apart, scripts_sound, check_transactions_lem, calculate-HasKeys,
}

-- No address has two entries.
abbrev Single : Dict ℕ → Type 0
Single [] = Unit
Single ((addr, n) ∷ m) = Apart addr m × Single m

insert-Single : (k : Bytes) (n : ℕ) (m : Dict ℕ) → Single m → Single (insert k n m)
unfolding insert
insert-Single k n [] h = (tt, tt)
insert-Single k n ((i, x) ∷ m) h = elim (Bool-cases (bytes_eq i k)) [
  | inl e ↦ let same : i ≡ k = (bytes_eq_iff i k).0 e in rw e (rw (← same) h.0, h.1)
  | inr e ↦ rw e (insert-Apart i k n m (bytes_eq-false→ne i k e) h.0, insert-Single k n m h.1)
]

paid_to-Single : (p : MinerTx) (m : Dict ℕ) (o : Option ℕ) → Single m → Single (paid_to p m o)
paid_to-Single p m none h = insert-Single p.rec_address p.amount m h
paid_to-Single p m (some n) h = insert-Single p.rec_address (add_u64 n p.amount) m h

payments-Single : (ps : List MinerTx) (m : Dict ℕ) → Single m → Single (payments ps m)
unfolding payments
payments-Single [] m h = h
payments-Single (p ∷ ps) m h =
    payments-Single ps (add_payment p m) (paid_to-Single p m (lookup p.rec_address m) h)

-- Entries that are found in a map.
abbrev Found : Dict ℕ → Dict ℕ → Type 0
Found old = All (λ (e : Bytes × ℕ). lookup e.0 old ≡ some e.1)

same_payments-Found : (m old : Dict ℕ) → Found old m → same_payments m old ≡ true
unfolding same_payments
same_payments-Found [] old h = refl
same_payments-Found ((addr, n) ∷ m) old h = rw (h.0, same_payments-Found m old h.1) (ground arith)

Found-more : (k : Bytes) (n : ℕ) (m old : Dict ℕ) → Apart k m → Found old m → Found ((k, n) ∷ old) m
unfolding lookup
Found-more k n [] old apart h = tt
Found-more k n ((i, x) ∷ m) old apart h =
    (ground (arith, bytes_eq_iff k i, apart.0, h.0), Found-more k n m old apart.1 h.1)

Found-self : (m : Dict ℕ) → Single m → Found m m
unfolding lookup
Found-self [] h = tt
Found-self ((k, n) ∷ m) h =
    (ground (arith, bytes_eq_iff k k), Found-more k n m m h.0 (Found-self m h.1))

module _ (b : Badger) (sha3 : Bytes → Bytes) where
  open b use {Txn}

  sound_plain :
      (db : Db) (txs : List Transaction)
      → All (λ tx. length tx.script ≡ 0) txs
      → scripts_sound b sha3 db txs ≡ ok true
  unfolding scripts_sound check_script
  sound_plain db [] h = refl
  sound_plain db (tx ∷ txs) h = rw (h.0, sound_plain db txs h.1) refl

  -- A block without scripts whose first transactions are what `Distr` gives for it passes the check.
  pub check_results_accepts :
      (verify : Bytes → Bytes → Bytes → Bool) (s : Txn) (db : Db) (rbl : Blocks) (ds cm qtj : Bytes)
      → All (λ tx. length tx.script ≡ 0) rbl.txs
      → distr verify rbl.txs rbl.miner ds cm qtj rbl.height ≡ some rbl.first_tx
      → check_results b sha3 verify s db rbl ds cm qtj ≡ ok true
  unfolding check_results calculation_results blocks_change
  check_results_accepts verify s db rbl ds cm qtj plain due =
      let m = results_map rbl.res [] in
      let found = Found-self (payments rbl.first_tx []) (payments-Single rbl.first_tx [] tt) in
      rw
        (
          check_transactions_lem b sha3 db (calculate b sha3 s rbl.txs m) rbl.txs
              (calculate-HasKeys b sha3 s rbl.txs m),
          sound_plain db rbl.txs plain,
          due,
          same_payments-Found (payments rbl.first_tx []) (payments rbl.first_tx []) found,
        )
        refl
