-- ===== src/Chain/Results/Unchecked.antt =====
-- What `Checkresults` does not check.
use raft_project.Common.{
  ℕ, ◌≡◌, ◌≢◌, refl, inl, inr, Bool, true, false, ◌&&◌, Option, none, some, List, [], ◌∷◌, ◌++◌,
  arith,
}
use raft_project.Common.Tests.{if◌then◌else◌, Bool-cases}
use raft_project.Common.Lists.{Bytes, bytes_eq, bytes_eq_iff, All}
use raft_project.Common.Outcome.{Outcome, ok, err, panic, ◌>>=◌}
use raft_project.Common.Dict.{Dict, lookup, insert, lookup-insert}
use raft_project.Store.{Badger}
use raft_project.Transaction.{Transaction}
use raft_project.Contract.Exec.{Db}
use raft_project.Chain.{add_u64}
use raft_project.Chain.Distr.{MinerTx, distr}
use raft_project.Chain.Locks.{get_balance}
use raft_project.Chain.Block.{Blocks}
use raft_project.Chain.Results.{
  blocks_change, lowered_result, raised_result, paid_to, add_payment, payments, same_payments,
  Fault, is_some, same_result, results_map, calculate, calculation_results, check_script,
  check_transactions, check_results,
}

abbrev HasKey : Bytes → Dict ℕ → Type 0
HasKey j m = is_some (lookup j m) ≡ true

insert-HasKey : (j k : Bytes) (n : ℕ) (m : Dict ℕ) → HasKey j m → HasKey j (insert k n m)
insert-HasKey j k n m h = ground (arith, lookup-insert j k n m)

insert-HasKey_self : (j : Bytes) (n : ℕ) (m : Dict ℕ) → HasKey j (insert j n m)
insert-HasKey_self j n m = ground (arith, lookup-insert j j n m, bytes_eq_iff j j)

lookup-paid_to :
    (j : Bytes) (q : MinerTx) (m : Dict ℕ) (o : Option ℕ)
    → q.rec_address ≢ j
    → lookup j (paid_to q m o) ≡ lookup j m
lookup-paid_to j q m none apart =
    ground (arith, lookup-insert j q.rec_address q.amount m, bytes_eq_iff q.rec_address j)
lookup-paid_to j q m (some n) apart =
    ground
      (arith, lookup-insert j q.rec_address (add_u64 n q.amount) m, bytes_eq_iff q.rec_address j)

-- Payments to an address, as they are looked up.
lookup-payments :
    (j : Bytes) (q : MinerTx) (ps : List MinerTx) (m : Dict ℕ)
    → q.rec_address ≢ j
    → lookup j (payments (ps ++ q ∷ []) m) ≡ lookup j (payments ps m)
unfolding payments
lookup-payments j q [] m apart = lookup-paid_to j q m (lookup q.rec_address m) apart
lookup-payments j q (p ∷ ps) m apart = lookup-payments j q ps (add_payment p m) apart

-- The addresses that a map holds are all other than `j`.
abbrev pub Apart : Bytes → Dict ℕ → Type 0
Apart j = All (λ (e : Bytes × ℕ). j ≢ e.0)

pub insert-Apart : (j k : Bytes) (n : ℕ) (m : Dict ℕ) → j ≢ k → Apart j m → Apart j (insert k n m)
unfolding insert
insert-Apart j k n [] ne h = (ne, tt)
insert-Apart j k n ((i, x) ∷ m) ne h = elim (Bool-cases (bytes_eq i k)) [
  | inl e ↦ rw e (ne, h.1)
  | inr e ↦ rw e (h.0, insert-Apart j k n m ne h.1)
]

paid_to-Apart :
    (j : Bytes) (p : MinerTx) (m : Dict ℕ) (o : Option ℕ)
    → j ≢ p.rec_address
    → Apart j m
    → Apart j (paid_to p m o)
paid_to-Apart j p m none ne h = insert-Apart j p.rec_address p.amount m ne h
paid_to-Apart j p m (some n) ne h = insert-Apart j p.rec_address (add_u64 n p.amount) m ne h

payments-Apart :
    (j : Bytes) (ps : List MinerTx) (m : Dict ℕ)
    → All (λ p. j ≢ p.rec_address) ps
    → Apart j m
    → Apart j (payments ps m)
unfolding payments
payments-Apart j [] m ne h = h
payments-Apart j (p ∷ ps) m ne h =
    payments-Apart j ps (add_payment p m) ne.1 (paid_to-Apart j p m (lookup p.rec_address m) ne.0 h)

same_payments-Apart :
    (q : MinerTx) (ps : List MinerTx) (m : Dict ℕ)
    → Apart q.rec_address m
    → same_payments m (payments (ps ++ q ∷ []) []) ≡ same_payments m (payments ps [])
unfolding same_payments
same_payments-Apart q ps [] h = refl
same_payments-Apart q ps ((addr, n) ∷ m) h =
    rw (lookup-payments addr q ps [] h.0, same_payments-Apart q ps m h.1) refl

same_payments-more :
    (q : MinerTx) (due ps : List MinerTx)
    → All (λ p. q.rec_address ≢ p.rec_address) due
    → same_payments (payments due []) (payments (ps ++ q ∷ []) [])
      ≡ same_payments (payments due []) (payments ps [])
same_payments-more q due ps apart =
    same_payments-Apart q ps (payments due []) (payments-Apart q.rec_address due [] apart tt)

module _ (b : Badger) (sha3 : Bytes → Bytes) where
  open b use {Txn}

  calculate-HasKey :
      (s : Txn) (txs : List Transaction) (m : Dict ℕ) (j : Bytes)
      → HasKey j m
      → HasKey j (calculate b sha3 s txs m)
  unfolding calculate
  calculate-HasKey s [] m j h = h
  calculate-HasKey s (tx ∷ txs) m j h =
      let n = lowered_result tx (get_balance b s tx.from) (lookup tx.from m) in
      let m1 = insert tx.from n m in
      let k = raised_result tx (get_balance b s tx.to) (lookup tx.to m1) in
      calculate-HasKey s txs (insert tx.to k m1) j
        (insert-HasKey j tx.to k m1 (insert-HasKey j tx.from n m h))

  unfoldable pub HasKeys : Dict ℕ → List Transaction → Type 0
  HasKeys m = All (λ tx. HasKey tx.from m × HasKey tx.to m)

  pub calculate-HasKeys :
      (s : Txn) (txs : List Transaction) (m : Dict ℕ) → HasKeys (calculate b sha3 s txs m) txs
  unfolding calculate HasKeys
  calculate-HasKeys s [] m = tt
  calculate-HasKeys s (tx ∷ txs) m =
      let n = lowered_result tx (get_balance b s tx.from) (lookup tx.from m) in
      let m1 = insert tx.from n m in
      let k = raised_result tx (get_balance b s tx.to) (lookup tx.to m1) in
      (
        (
          calculate-HasKey s txs (insert tx.to k m1) tx.from
              (insert-HasKey tx.from tx.to k m1 (insert-HasKey_self tx.from n m)),
          calculate-HasKey s txs (insert tx.to k m1) tx.to (insert-HasKey_self tx.to k m1),
        ),
        calculate-HasKeys s txs (insert tx.to k m1),
      )

  -- The scripts alone.
  unfoldable pub scripts_sound : Db → List Transaction → Outcome Fault Bool
  scripts_sound db [] = ok true
  scripts_sound db (tx ∷ txs) =
      let rest = scripts_sound db txs in
      check_script b sha3 db tx >>= λ sound. if sound then rest else ok false

  same_result_self : (o : Option ℕ) → same_result o o ≡ true
  same_result_self none = refl
  same_result_self (some n) = ground arith

  and_true :
      (o : Outcome Fault Bool) (x y : Outcome Fault Bool)
      → x ≡ y
      → (o >>= λ sound. if sound && true then x else ok false)
        ≡ (o >>= λ sound. if sound then y else ok false)
  and_true (ok true) x y same = same
  and_true (ok false) x y same = refl
  and_true (err e) x y same = refl
  and_true panic x y same = refl

  pub check_transactions_lem :
      (db : Db) (m : Dict ℕ) (txs : List Transaction)
      → HasKeys m txs
      → check_transactions b sha3 db m m txs ≡ scripts_sound db txs
  unfolding check_transactions scripts_sound HasKeys
  check_transactions_lem db m [] h = refl
  check_transactions_lem db m (tx ∷ txs) h =
      rw (h.0.0, h.0.1, same_result_self (lookup tx.from m), same_result_self (lookup tx.to m))
        (and_true (check_script b sha3 db tx) (check_transactions b sha3 db m m txs)
          (scripts_sound db txs) (check_transactions_lem db m txs h.1))

  -- A block's list of balances does not decide its check: two blocks that differ only there get one verdict.
  pub check_results_ignores_res :
      (verify : Bytes → Bytes → Bytes → Bool) (s : Txn) (db : Db) (rbl : Blocks)
      (rs : List (Bytes × ℕ)) (ds cm qtj : Bytes)
      → check_results b sha3 verify s db (record rbl { res = rs }) ds cm qtj
        ≡ check_results b sha3 verify s db rbl ds cm qtj
  unfolding check_results calculation_results blocks_change
  check_results_ignores_res verify s db rbl rs ds cm qtj =
      let m = results_map rs [] in
      let m' = results_map rbl.res [] in
      rw
        (
          check_transactions_lem db (calculate b sha3 s rbl.txs m) rbl.txs
              (calculate-HasKeys s rbl.txs m),
          check_transactions_lem db (calculate b sha3 s rbl.txs m') rbl.txs
              (calculate-HasKeys s rbl.txs m'),
        )
        refl

  -- A payment to an address that is due nothing does not decide a block's check: a block whose first
  -- transactions are one more, to an address that `Distr` does not pay, gets the same verdict.
  pub check_results_ignores_payee :
      (verify : Bytes → Bytes → Bytes → Bool) (s : Txn) (db : Db) (rbl : Blocks) (q : MinerTx)
      (ds cm qtj : Bytes) (due : List MinerTx)
      → distr verify rbl.txs rbl.miner ds cm qtj rbl.height ≡ some due
      → All (λ p. q.rec_address ≢ p.rec_address) due
      → check_results b sha3 verify s db
          (record rbl { first_tx = rbl.first_tx ++ q ∷ [] })
          ds
          cm
          qtj
        ≡ check_results b sha3 verify s db rbl ds cm qtj
  unfolding check_results calculation_results blocks_change
  check_results_ignores_payee verify s db rbl q ds cm qtj due paid apart =
      rw (paid, same_payments-more q due rbl.first_tx apart) refl
