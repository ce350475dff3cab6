-- ===== src/Txpool/Pendings.antt =====
-- `Pendings` of txpool/txpool.go: which of the pool's transactions are offered for the next block.
pub mod Loop
use raft_project.Common.{
  ℕ, zero, suc, ◌+◌, ◌%◌, ◌^◌, Bool, true, false, not, ◌&&◌, ◌||◌, Option, none, some, List, [],
  ◌∷◌, ◌++◌,
}
use raft_project.Common.Tests.{ltb, ◌==◌, if◌then◌else◌}
use raft_project.Common.Lists.{Bytes, length}
use raft_project.Common.Outcome.{Outcome, ok, err, panic, ◌>>=◌}
use raft_project.Common.Dict.{Dict, lookup, insert}
use raft_project.Codec.{e64func}
use raft_project.Store.{Badger, mget, mset}
use raft_project.Transaction.{Transaction}
use raft_project.Contract.Grammar.{parser}
use raft_project.Contract.Operate.{OperateError}
use raft_project.Contract.Script.{Script}
use raft_project.Contract.Exec.{Db, Changes, ExecError, new}
use raft_project.Contract.Exec.Root.{root}
use raft_project.Chain.{sub_u64, nonce_map, lock_map, keep, is_value}
use raft_project.Txpool.{
  lt_i64, fetched_word, or_zero, AddError, heap_push, heap_pop, pop_rounds, push_fresh,
}

-- The loop of `Pendings` runs on fuel.
pub data Exhausted : Type 0 where
  exhausted : Exhausted

-- The heap's functions give no error, and may panic.
abbrev pub or_panics : {A : Type 0} → Outcome AddError A → Outcome Exhausted A
or_panics (ok a) = ok a
or_panics (err e) = panic
or_panics panic = panic

-- A transaction's script: the root of what it changes, or its failure, or a panic.
pub data ScriptRun : Type 0 where
  rooted : Bytes → ScriptRun
  fails panics : ScriptRun

abbrev pub run_root : Outcome Bytes Bytes → ScriptRun
run_root (ok r) = rooted r
run_root (err e) = panics
run_root panic = panics

abbrev pub run_changes : (Bytes → Bytes) → Outcome ExecError Changes → ScriptRun
run_changes sha3 (ok mp) = run_root (root sha3 mp)
run_changes sha3 (err e) = fails
run_changes sha3 panic = panics

abbrev pub run_parsed :
    (Bytes → Bytes) → Db → Bytes → Outcome OperateError (List (Option Script)) → ScriptRun
run_parsed sha3 db from (ok scs) = run_changes sha3 (new db scs from)
run_parsed sha3 db from (err e) = panics
run_parsed sha3 db from panic = panics

unfoldable pub run_of : (Bytes → Bytes) → Db → Transaction → ScriptRun
run_of sha3 db tx = run_parsed sha3 db tx.from (parser tx.script)

-- The pool's fields that the loop changes, and the chain, on which `GetNonce` may write. `balance` has
-- `int64`s, as words.
pub record Pending (b : Badger) : Type 0 where
  pub list : List Transaction
  pub queue : List Transaction
  pub pending : List Transaction
  pub item : Dict ℕ
  pub balance : Dict ℕ
  pub chain : b.Txn

module _ (b : Badger) (sha3 : Bytes → Bytes) (db : Db) where
  open b use {Txn, get}

  unfoldable pub spent : Pending b → Transaction → ℕ → Pending b
  spent p tx bal = record p {
    pending = p.pending ++ tx ∷ [];
    balance = insert tx.from (sub_u64 bal tx.amount) p.balance;
  }

  -- The sender's balance is charged with the fee of a script that runs.
  unfoldable pub ran : Pending b → Transaction → ℕ → ScriptRun → Outcome Exhausted (Pending b)
  ran p tx bal (rooted r) = ok (spent p (record tx { root = r }) (sub_u64 bal tx.fee))
  ran p tx bal fails = ok p
  ran p tx bal panics = panic

  -- A transaction whose turn it is: it is taken if the sender's balance covers the amount.
  unfoldable pub accept : Pending b → Transaction → ℕ → ℕ → Outcome Exhausted (Pending b)
  accept p tx bal n =
      let p1 = record p { item = insert tx.from n p.item } in
      if lt_i64 bal tx.amount
      then ok p
      else if length tx.script == 0
      then ok (spent p1 tx bal)
      else ran p1 tx bal (run_of sha3 db tx)

  abbrev pub queued : Pending b → Transaction → Pending b
  queued p tx = record p { queue = heap_push tx p.queue }

  -- Whether it is its turn, from the chain's nonce and the sender's entry of `item`.
  unfoldable pub place : Pending b → Transaction → ℕ → ℕ → Option ℕ → Outcome Exhausted (Pending b)
  place p tx n bal none =
      if tx.nonce == n
      then accept p tx bal n
      else ok (queued (record p { item = insert tx.from n p.item }) tx)
  place p tx n bal (some m) =
      if tx.nonce == n
      then ok p
      else if tx.nonce == (m + 1) % 2 ^ 64
      then accept p tx bal tx.nonce
      else ok (queued p tx)

  -- What the sender can spend: the balance on the chain less what is locked.
  unfoldable pub available : Txn → Bytes → ℕ
  available s a =
      sub_u64 (or_zero (fetched_word (get s a))) (or_zero (fetched_word (mget b s lock_map a)))

  unfoldable pub fund : Pending b → Transaction → ℕ → Option ℕ → Outcome Exhausted (Pending b)
  fund p tx n (some bal) = place p tx n bal (lookup tx.from p.item)
  fund p tx n none =
      let av = available p.chain tx.from in
      if av == 0 || ltb av tx.amount
      then ok p
      else place (record p { balance = insert tx.from av p.balance }) tx n av
          (lookup tx.from p.item)

  unfoldable pub consider : Pending b → Transaction → ℕ → Outcome Exhausted (Pending b)
  consider p tx n = if ltb tx.nonce n then ok p else fund p tx n (lookup tx.from p.balance)

  -- `GetNonce`: 0 if it gives an error. `commits` is whether the write of a first nonce is committed; a
  -- transaction that only reads has nothing to commit, so its commit is taken to succeed.
  unfoldable pub get_nonce : Txn → Bytes → Bool → Txn × ℕ
  get_nonce s a commits =
      let v = mget b s nonce_map a in
      if is_value v
      then (s, or_zero (fetched_word v))
      else (keep (if commits then mset b s nonce_map a (e64func 1) else none) s, 1)

  -- A round of the loop, for a transaction that is taken out of the heap.
  unfoldable pub round : Bool → Pending b → Transaction → Outcome Exhausted (Pending b)
  round commits p tx =
      let (s, n) = get_nonce p.chain tx.from commits in consider (record p { chain = s }) tx n

  unfoldable pub collect : ℕ → Bool → Pending b → Outcome Exhausted (Pending b)
  collect zero commits p = err exhausted
  collect (suc fuel) commits p =
      let next = (do
        (tx, rest) ← or_panics (heap_pop p.list)
        p' ← round commits (record p { list = rest }) tx
        collect fuel commits p') in
      if not (ltb (length p.pending) 500) || length p.list == 0 then ok p else next

  -- What is popped from the queue goes back to the heap if it came in in the last ten seconds.
  unfoldable pub finish : ℕ → Pending b → Outcome Exhausted (Pending b)
  finish now p = do
    (popped, queue) ← or_panics (pop_rounds (length p.queue) 0 p.queue)
    ok (record p { list = push_fresh now popped p.list; queue = queue; item = []; balance = [] })

  -- `Pendings`, at the time `now`. Every round of the loop takes a transaction out of the heap.
  unfoldable pub pendings : Bool → ℕ → Pending b → Outcome Exhausted (Pending b)
  pendings commits now p = collect (suc (length p.list)) commits p >>= finish now
