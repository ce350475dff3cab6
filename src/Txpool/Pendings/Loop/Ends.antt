-- ===== src/Txpool/Pendings/Loop/Ends.antt =====
-- `Pendings` of txpool/txpool.go ends.
use raft_project.Common.{ℕ, suc, ◌≡◌, refl, Bool, true, false, not, [], List, arith}
use raft_project.Common.Tests.{◌==◌}
use raft_project.Common.Lists.{Bytes, length}
use raft_project.Common.Outcome.{Outcome, ok, err, panic, ◌>>=◌}
use raft_project.Transaction.{Transaction}
use raft_project.Store.{Badger}
use raft_project.Contract.Exec.{Db}
use raft_project.Txpool.{push_fresh}
use raft_project.Common.Lists.{count}
use raft_project.Txpool.Kept.{pop_rounds_lem}
use raft_project.Txpool.Pendings.{Exhausted, Pending, collect, finish, pendings}
use raft_project.Txpool.Pendings.Loop.{Gives, Kept, collect-Gives}

-- A transaction with a script.
abbrev pub scripted : Transaction → Bool
scripted tx = not (length tx.script == 0)

module _ (b : Badger) (sha3 : Bytes → Bytes) (db : Db) (X : Type 0) where
  pub finish-Gives :
      (now : ℕ) (P Q : Pending b → Type 0) (r : Outcome Exhausted (Pending b))
      → ((p : Pending b) (l q : List Transaction)
          → P p
          → Q (record p { list = l; queue = q; item = []; balance = [] }))
      → Gives X r P
      → Gives X (r >>= finish b sha3 db now) Q
  unfolding finish
  finish-Gives now P Q (ok p) carry h =
      let (popped, queue, rounds, _, _) =
        pop_rounds_lem (λ _. true) (length p.queue) 0 p.queue (omega arith) in
      rw (finish, rounds) (carry p (push_fresh now popped p.list) queue h)
  finish-Gives now P Q (err e) carry h = h
  finish-Gives now P Q panic carry h = h

module _ (b : Badger) (sha3 : Bytes → Bytes) (db : Db) where
  got :
      (r : Outcome Exhausted (Pending b))
      → Gives ⊥ r (λ p. p.balance ≡ [])
      → (p : Pending b) × (r ≡ ok p) × (p.balance ≡ [])
  got (ok p) h = (p, refl, h)
  got (err e) h = absurd h
  got panic h = absurd h

  unscripted : (tx : Transaction) → scripted tx ≡ false → Kept b sha3 db ⊥ (λ p. Unit) tx
  unscripted tx plain = record {
    scripts = λ has. ground arith;
    idle = λ p it q h. tt;
    funds = λ p e h. tt;
    takes = λ p u bal left same amount charge e enough h. tt;
  }

  -- On a pool without scripts `Pendings` ends and does not panic, and it leaves the map of balances empty.
  pub pendings_returns :
      (commits : Bool) (now : ℕ) (p : Pending b)
      → count scripted p.list ≡ 0
      → (p' : Pending b) × (pendings b sha3 db commits now p ≡ ok p') × (p'.balance ≡ [])
  unfolding pendings
  pendings_returns commits now p plain = got (pendings b sha3 db commits now p) (
      finish-Gives b sha3 db ⊥ now (λ q. Unit) (λ q. q.balance ≡ [])
        (collect b sha3 db (suc (length p.list)) commits p) (λ q l qu h. refl)
        (collect-Gives b sha3 db ⊥ (λ q. Unit) scripted unscripted (λ q l h. tt) (λ q x c h. tt)
          (suc (length p.list)) commits p (omega arith) plain tt))
