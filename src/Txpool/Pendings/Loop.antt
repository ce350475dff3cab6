-- ===== src/Txpool/Pendings/Loop.antt =====
-- The loop of `Pendings` of txpool/txpool.go: it ends, and what every round keeps, the loop keeps.
pub mod Ends
pub mod Solvent
use raft_project.Common.{
  ℕ, zero, suc, ◌+◌, ◌≤◌, ◌<◌, ◌≡◌, ◌≢◌, refl, sym, ◌%◌, ◌^◌, ◌∙◌, ◌⊎◌, inl, inr, Bool, true, false,
  not, ◌||◌, Option, none, some, List, [], ◌∷◌, ◌++◌, arith,
}
use raft_project.Common.Tests.{ltb, ◌==◌, if◌then◌else◌, Bool-cases, Option-cases}
use raft_project.Common.Lists.{Bytes, length}
use raft_project.Common.Outcome.{Outcome, ok, err, panic, ◌>>=◌}
use raft_project.Common.Dict.{Dict, lookup, insert, lookup-insert_self}
use raft_project.Store.{Badger}
use raft_project.Transaction.{Transaction}
use raft_project.Contract.Exec.{Db}
use raft_project.Chain.{sub_u64}
use raft_project.Txpool.{lt_i64, heap_pop, heap_push}
use raft_project.Txpool.Heap.{heap_lem}
use raft_project.Common.Lists.{count}
use raft_project.Txpool.Pendings.{
  Exhausted, exhausted, or_panics, ScriptRun, rooted, fails, panics, run_of, Pending, available,
  spent, ran, accept, place, fund, consider, get_nonce, round, collect,
}

-- A run that does not stop for want of fuel, and whose result, if it has one, is as stated.
-- `X` is what a panic has to show.
abbrev pub Gives :
    {b : Badger} → Type 0 → Outcome Exhausted (Pending b) → (Pending b → Type 0) → Type 0
Gives X (ok p) P = P p
Gives X (err e) P = ⊥
Gives X panic P = X

module _ (b : Badger) (sha3 : Bytes → Bytes) (db : Db) (X : Type 0) (P : Pending b → Type 0) where
  -- What a round may do with a transaction, and what it has to keep.
  pub record Kept (tx : Transaction) : Type 0 where
    pub scripts : (length tx.script == 0) ≡ false → X
    pub idle :
        (p : Pending b) (it : Dict ℕ) (q : List Transaction)
        → P p
        → P (record p { item = it; queue = q })
    pub funds :
        (p : Pending b)
        → lookup tx.from p.balance ≡ none
        → P p
        → P (record p { balance = insert tx.from (available b sha3 db p.chain tx.from) p.balance })
    pub takes :
        (p : Pending b) (u : Transaction) (bal left : ℕ)
        → u.from ≡ tx.from
        → u.amount ≡ tx.amount
        → (left ≡ bal) ⊎ (left ≡ sub_u64 bal tx.fee)
        → lookup tx.from p.balance ≡ some bal
        → lt_i64 bal tx.amount ≡ false
        → P p
        → P (spent b sha3 db p u left)

  module _ (tx : Transaction) (k : Kept tx) where
    ran-Gives :
        (p : Pending b) (bal : ℕ) (r : ScriptRun)
        → (length tx.script == 0) ≡ false
        → lookup tx.from p.balance ≡ some bal
        → lt_i64 bal tx.amount ≡ false
        → P p
        → Gives X (ran b sha3 db p tx bal r) P
    unfolding ran
    ran-Gives p bal (rooted r) scripted e enough h =
        k.takes p (record tx { root = r }) bal (sub_u64 bal tx.fee) refl refl (inr refl) e enough h
    ran-Gives p bal fails scripted e enough h = h
    ran-Gives p bal panics scripted e enough h = k.scripts scripted

    accept-Gives :
        (p : Pending b) (bal n : ℕ)
        → lookup tx.from p.balance ≡ some bal
        → P p
        → Gives X (accept b sha3 db p tx bal n) P
    unfolding accept
    accept-Gives p bal n e h = elim (Bool-cases (lt_i64 bal tx.amount)) [
      | inl short ↦ rw (short, accept) h
      | inr enough ↦ elim (Bool-cases (length tx.script == 0)) [
        | inl plain ↦
            rw (enough, plain, accept)
              (k.takes (record p { item = insert tx.from n p.item }) tx bal bal refl refl (inl refl)
                e enough (k.idle p (insert tx.from n p.item) p.queue h))
        | inr scripted ↦
            rw (enough, scripted, accept)
              (ran-Gives (record p { item = insert tx.from n p.item }) bal (run_of sha3 db tx)
                scripted e enough (k.idle p (insert tx.from n p.item) p.queue h))
      ]
    ]

    place-Gives :
        (p : Pending b) (n bal : ℕ) (o : Option ℕ)
        → lookup tx.from p.balance ≡ some bal
        → P p
        → Gives X (place b sha3 db p tx n bal o) P
    unfolding place
    place-Gives p n bal none e h = elim (Bool-cases (tx.nonce == n)) [
      | inl turn ↦ rw (turn, place) (accept-Gives p bal n e h)
      | inr later ↦ rw (later, place) (k.idle p (insert tx.from n p.item) (heap_push tx p.queue) h)
    ]
    place-Gives p n bal (some m) e h = elim (Bool-cases (tx.nonce == n)) [
      | inl again ↦ rw (again, place) h
      | inr later ↦ elim (Bool-cases (tx.nonce == (m + 1) % 2 ^ 64)) [
        | inl turn ↦ rw (later, turn, place) (accept-Gives p bal tx.nonce e h)
        | inr early ↦ rw (later, early, place) (k.idle p p.item (heap_push tx p.queue) h)
      ]
    ]

    fund-Gives :
        (p : Pending b) (n : ℕ) (o : Option ℕ)
        → lookup tx.from p.balance ≡ o
        → P p
        → Gives X (fund b sha3 db p tx n o) P
    unfolding fund
    fund-Gives p n (some bal) e h = place-Gives p n bal (lookup tx.from p.item) e h
    fund-Gives p n none e h =
        let av = available b sha3 db p.chain tx.from in
        elim (Bool-cases (av == 0 || ltb av tx.amount)) [
          | inl poor ↦ rw (poor, fund) h
          | inr enough ↦
              rw (enough, fund)
                (place-Gives (record p { balance = insert tx.from av p.balance }) n av
                  (lookup tx.from p.item) (lookup-insert_self tx.from av p.balance) (k.funds p e h))
        ]

    consider-Gives : (p : Pending b) (n : ℕ) → P p → Gives X (consider b sha3 db p tx n) P
    unfolding consider
    consider-Gives p n h = elim (Bool-cases (ltb tx.nonce n)) [
      | inl old ↦ rw (old, consider) h
      | inr new ↦ rw (new, consider) (fund-Gives p n (lookup tx.from p.balance) refl h)
    ]

module _ (b : Badger) (sha3 : Bytes → Bytes) (db : Db) (X : Type 0) where
  -- No round changes the heap.
  with_list :
      (P : Pending b → Type 0) (tx : Transaction) (l : List Transaction)
      → Kept b sha3 db X P tx
      → Kept b sha3 db X (λ p. P p × (p.list ≡ l)) tx
  unfolding spent
  with_list P tx l k = record {
    scripts = k.scripts;
    idle = λ p it q h. (k.idle p it q h.0, h.1);
    funds = λ p e h. (k.funds p e h.0, h.1);
    takes = λ p u bal left same amount charge e enough h.
        (k.takes p u bal left same amount charge e enough h.0, h.1);
  }

  module _ (P : Pending b → Type 0) (f : Transaction → Bool)
      (kept : (tx : Transaction) → f tx ≡ false → Kept b sha3 db X P tx)
      (relist : (p : Pending b) (l : List Transaction) → P p → P (record p { list = l }))
      (rechain : (p : Pending b) (a : Bytes) (commits : Bool)
        → P p
        → P (record p { chain = (get_nonce b sha3 db p.chain a commits).0 })) where
    round-Gives :
        (commits : Bool) (p : Pending b) (tx : Transaction)
        → f tx ≡ false
        → P p
        → Gives X (round b sha3 db commits p tx) (λ p'. P p' × (p'.list ≡ p.list))
    unfolding round
    round-Gives commits p tx fine h =
        let (s, n) = get_nonce b sha3 db p.chain tx.from commits in
        consider-Gives b sha3 db X (λ p'. P p' × (p'.list ≡ p.list)) tx
          (with_list P tx p.list (kept tx fine)) (record p { chain = s }) n
          (rechain p tx.from commits h, refl)

    none_fails :
        (tx : Transaction) (n : ℕ) → n + (if f tx then 1 else 0) ≡ 0 → (f tx ≡ false) × (n ≡ 0)
    none_fails tx n h = elim (Bool-cases (f tx)) [
      | inl bad ↦ let one : n + 1 ≡ 0 = ground arith in absurd (omega arith)
      | inr fine ↦ (fine, omega arith)
    ]

    bind-Gives :
        (r : Outcome Exhausted (Pending b)) (Q : Pending b → Type 0)
        (g : Pending b → Outcome Exhausted (Pending b))
        → Gives X r Q
        → ((p : Pending b) → Q p → Gives X (g p) P)
        → Gives X (r >>= g) P
    bind-Gives (ok p) Q g h k = k p h
    bind-Gives (err e) Q g h k = absurd h
    bind-Gives panic Q g h k = h

    popped_from :
        (l : List Transaction)
        → (length l == 0) ≡ false
        → (tx : Transaction) × (rest : List Transaction) × (heap_pop l ≡ ok (tx, rest))
          × (count f rest + (if f tx then 1 else 0) ≡ count f l)
          × (suc (length rest) ≡ length l)
    popped_from [] go = cc
    popped_from (u ∷ us) go =
        let (_, _, tx, rest, out, same, size) = heap_lem f u u us in
        (tx, rest, out, same, omega (arith, size))

    popped :
        (p : Pending b)
        → (not (ltb (length p.pending) 500) || length p.list == 0) ≡ false
        → (tx : Transaction) × (rest : List Transaction) × (heap_pop p.list ≡ ok (tx, rest))
          × (count f rest + (if f tx then 1 else 0) ≡ count f p.list)
          × (suc (length rest) ≡ length p.list)
    popped p go = popped_from p.list (ground arith)

    -- The loop, on more fuel than there are transactions in the heap, ends and keeps what its rounds keep,
    -- if no transaction of the heap has what they cannot do with.
    pub collect-Gives :
        (fuel : ℕ) (commits : Bool) (p : Pending b)
        → length p.list < fuel
        → count f p.list ≡ 0
        → P p
        → Gives X (collect b sha3 db fuel commits p) P
    unfolding collect
    collect-Gives zero commits p short fine h = absurd (omega arith)
    collect-Gives (suc fuel) commits p short fine h =
        elim (Bool-cases (not (ltb (length p.pending) 500) || length p.list == 0)) [
          | inl stop ↦ rw (stop, collect) h
          | inr go ↦
              let (tx, rest, out, same, size) = popped p go in
              let (ok_tx, ok_rest) = none_fails tx (count f rest) (omega arith) in
              rw (go, out, collect)
                (bind-Gives (round b sha3 db commits (record p { list = rest }) tx)
                  (λ p'. P p' × (p'.list ≡ rest)) (collect b sha3 db fuel commits)
                  (round-Gives commits (record p { list = rest }) tx ok_tx (relist p rest h))
                  (λ p' hp.
                    collect-Gives fuel commits p' (rw hp.1 (omega arith)) (rw hp.1 ok_rest) hp.0))
        ]
