-- ===== src/Contract/Exec/Batch.antt =====
-- Whole scripts of operations on one token, and what single transfers do to the accounts.
use raft_project.Common.{
  ℕ, ◌+◌, ◌-◌, ◌%◌, ◌^◌, ◌≤◌, ◌<◌, ◌≡◌, ◌≢◌, refl, true, false, Option, some, List, [], ◌∷◌, arith,
}
use raft_project.Common.Lists.{Bytes, bytes_eq, bytes_eq_iff, codes}
use raft_project.Common.Outcome.{Outcome, ok, err, panic, ◌>>=◌}
use raft_project.Contract.Script.{Script}
use raft_project.Contract.Exec.{Db, Changes, ExecError, b_key, read_balance, deal, deal2, run}
use raft_project.Contract.Exec.Token.{Token, update, transfer, mint, set_frozen}
use raft_project.Contract.Exec.Refinement.{
  Represents, Implements, transfer_script, amount_script, address_script, deal1-Implements,
  deal2-Implements, deal3-deal4-Implements,
}

-- The operations on a token that is in the database.
pub data Op : Type 0 where
  minted : ℕ → Op
  sent : ℕ → Bytes → Op
  freeze unfreeze : Bytes → Op

abbrev pub script_of : Bytes → Op → Script
script_of id (minted n) = amount_script (codes "mint") id n
script_of id (sent n to) = transfer_script id n to
script_of id (freeze a) = address_script (codes "freeze") id a
script_of id (unfreeze a) = address_script (codes "unfreeze") id a

abbrev pub scripts_of : Bytes → List Op → List (Option Script)
scripts_of id [] = []
scripts_of id (op ∷ ops) = some (script_of id op) ∷ scripts_of id ops

abbrev pub apply : Token → Bytes → Op → Outcome ExecError Token
apply t who (minted n) = mint t who n
apply t who (sent n to) = transfer t who n to
apply t who (freeze a) = set_frozen t who a true
apply t who (unfreeze a) = set_frozen t who a false

abbrev pub apply_all : Token → Bytes → List Op → Outcome ExecError Token
apply_all t who [] = ok t
apply_all t who (op ∷ ops) = apply t who op >>= λ t'. apply_all t' who ops

deal-Implements :
    (db : Db) (mp : Changes) (id : Bytes) (t : Token) (who : Bytes) (op : Op)
    → Represents db mp id t
    → Implements db id (deal (script_of id op).name db who mp (script_of id op)) (apply t who op)
unfolding deal bytes_eq
deal-Implements db mp id t who (minted n) r = deal1-Implements db mp id t who n r
deal-Implements db mp id t who (sent n to) r = deal2-Implements db mp id t who n to r
deal-Implements db mp id t who (freeze a) r = (deal3-deal4-Implements db mp id t who a r).0
deal-Implements db mp id t who (unfreeze a) r = (deal3-deal4-Implements db mp id t who a r).1

-- If one step implements a step, and what follows implements what follows, so do both together.
Implements->>= :
    (db : Db) (id : Bytes) (c : Outcome ExecError Changes) (s : Outcome ExecError Token)
    (f : Changes → Outcome ExecError Changes) (g : Token → Outcome ExecError Token)
    → Implements db id c s
    → ((mp : Changes) (t : Token) → Represents db mp id t → Implements db id (f mp) (g t))
    → Implements db id (c >>= f) (s >>= g)
Implements->>= db id (ok mp) (ok t) f g h k = k mp t h
Implements->>= db id (ok mp) (err e) f g h k = absurd h
Implements->>= db id (ok mp) panic f g h k = absurd h
Implements->>= db id (err e) (ok t) f g h k = absurd h
Implements->>= db id (err e) (err e') f g h k = h
Implements->>= db id (err e) panic f g h k = absurd h
Implements->>= db id panic s f g h k = absurd h

-- Running a list of mints, transfers, freezes and unfreezes of one token on a database that holds it
-- never panics: it ends in the error at which the token's own operations, made one after another,
-- end, or in changes that hold the state of the token that these lead to.
pub run-Implements :
    (db : Db) (mp : Changes) (id : Bytes) (t : Token) (who : Bytes) (ops : List Op)
    → Represents db mp id t
    → Implements db id (run db who mp (scripts_of id ops)) (apply_all t who ops)
unfolding run
run-Implements db mp id t who [] r = r
run-Implements db mp id t who (op ∷ ops) r =
    Implements->>= db id _ (apply t who op) _ (λ t'. apply_all t' who ops)
      (deal-Implements db mp id t who op r) (λ mp' t' r'. run-Implements db mp' id t' who ops r')

-- An implementation of a step that succeeds succeeds.
Implements-ok :
    (db : Db) (id : Bytes) (c : Outcome ExecError Changes) {t : Token}
    → Implements db id c (ok t)
    → (mp : Changes) × (c ≡ ok mp) × Represents db mp id t
Implements-ok db id (ok mp) h = (mp, refl, h)
Implements-ok db id (err e) h = absurd h
Implements-ok db id panic h = absurd h

transfer-ok :
    (t : Token) (from : Bytes) (n : ℕ) (to : Bytes)
    → t.frozen from ≡ false
    → n ≤ t.balance from
    → transfer t from n to
      ≡ ok (record t {
        balance =
            update (update t.balance from (t.balance from - n)) to ((t.balance to + n) % 2 ^ 64);
      })
transfer-ok t from n to free enough = rw free (ground arith)

module _ (db : Db) (mp : Changes) (id : Bytes) (t : Token) (from : Bytes) (n : ℕ) (to : Bytes)
    (r : Represents db mp id t) (free : t.frozen from ≡ false) (enough : n ≤ t.balance from)
    (room : t.balance to + n < 2 ^ 64) where
  pub sent_ok :
      (mp' : Changes) × (deal2 db from mp (transfer_script id n to) ≡ ok mp')
      × Represents db mp' id (record t {
        balance =
            update (update t.balance from (t.balance from - n)) to ((t.balance to + n) % 2 ^ 64);
      })
  sent_ok =
      Implements-ok db id _
        (rw (transfer-ok t from n to free enough) at (deal2-Implements db mp id t from n to r))

  -- A transfer between two accounts, from one that is not frozen and has the amount, to one whose
  -- balance stays below 2^64, succeeds, takes the amount from the first and adds it to the second, so
  -- that their sum stays, and leaves every third account as it was.
  pub transfer_moves :
      (other : Bytes)
      → from ≢ to
      → other ≢ from
      → other ≢ to
      → (mp' : Changes) × (deal2 db from mp (transfer_script id n to) ≡ ok mp')
        × (read_balance db mp' (b_key id from) ≡ ok (t.balance from - n))
        × (read_balance db mp' (b_key id to) ≡ ok (t.balance to + n))
        × (t.balance from - n + (t.balance to + n) ≡ t.balance from + t.balance to)
        × (read_balance db mp' (b_key id other) ≡ read_balance db mp (b_key id other))
  transfer_moves other apart not_from not_to =
      let (mp', done, after) = sent_ok in
      (
        mp',
        done,
        ground (arith, after.balances from, bytes_eq_iff to from, bytes_eq_iff from from),
        ground (arith, after.balances to, bytes_eq_iff to to),
        omega arith,
        ground (
          arith,
          after.balances other,
          r.balances other,
          bytes_eq_iff to other,
          bytes_eq_iff from other,
        ),
      )

  -- A transfer of an account to itself, of at most its balance, succeeds and raises its balance by
  -- the amount, out of nothing: the second write, made from the balance that was read first, covers
  -- the first one. The database with the changes so far holds the token, the account is not frozen,
  -- and its balance and the amount are together below 2^64.
  pub transfer_self_mints :
      from ≡ to
      → (mp' : Changes) × (deal2 db from mp (transfer_script id n to) ≡ ok mp')
        × (read_balance db mp' (b_key id from) ≡ ok (t.balance from + n))
  transfer_self_mints same =
      let (mp', done, after) = sent_ok in
      (mp', done, ground (arith, same, after.balances from, bytes_eq_iff to from))
