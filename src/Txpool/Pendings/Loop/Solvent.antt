-- ===== src/Txpool/Pendings/Loop/Solvent.antt =====
-- `Pendings` of txpool/txpool.go does not let a sender spend more than there is.
use raft_project.Common.{
  ℕ, suc, ◌+◌, ◌^◌, ◌≤◌, ◌<◌, ◌≡◌, ◌≢◌, refl, ◌∙◌, ◌⊎◌, inl, inr, Bool, false, not, ◌||◌, Option,
  none, some, List, [], ◌∷◌, ◌++◌, arith,
}
use raft_project.Common.Tests.{ltb, if◌then◌else◌, Bool-cases, Option-cases, ltb→lt, ltb-false→le}
use raft_project.Common.Lists.{Bytes, bytes_eq, bytes_eq_iff, bytes_eq-false→ne, length}
use raft_project.Common.Dict.{Dict, lookup, insert, lookup-insert}
use raft_project.Codec.{e32func, e64func, le_encode}
use raft_project.Store.{Badger, e_map_key, mget, mset}
use raft_project.Transaction.{Transaction}
use raft_project.Contract.Exec.{Db}
use raft_project.Chain.{sub_u64, nonce_map, lock_map, keep, is_value}
use raft_project.Chain.Accounts.{IsAddress, map_key-ne}
use raft_project.Txpool.{lt_i64}
use raft_project.Common.Lists.{count}
use raft_project.Txpool.Pendings.{Pending, available, spent, get_nonce, collect, pendings}
use raft_project.Txpool.Pendings.Loop.{Gives, Kept, collect-Gives}
use raft_project.Txpool.Pendings.Loop.Ends.{finish-Gives}

-- What a sender spends by a list of transactions.
abbrev pub amount_of : Bytes → List Transaction → ℕ
amount_of a [] = 0
amount_of a (tx ∷ txs) = (if bytes_eq tx.from a then tx.amount else 0) + amount_of a txs

amount_of-append :
    (a : Bytes) (txs us : List Transaction)
    → amount_of a (txs ++ us) ≡ amount_of a txs + amount_of a us
amount_of-append a [] us = omega arith
amount_of-append a (tx ∷ txs) us = omega (arith, amount_of-append a txs us)

-- A transaction whose amount or fee is no positive `int64`.
abbrev pub oversized : Transaction → Bool
oversized tx = not (ltb tx.amount (2 ^ 63)) || not (ltb tx.fee (2 ^ 63))

lock_key-ne : (x a : Bytes) → bytes_eq (e_map_key nonce_map x) (e_map_key lock_map a) ≡ false
unfolding e_map_key e32func le_encode bytes_eq
lock_key-ne x a = ground arith

-- A balance of the loop, with what has been spent, against what there was.
abbrev Within : ℕ → ℕ → ℕ → Type 0
Within total paid w =
    ((w < 2 ^ 63) × (w + paid ≤ total)) ⊎ ((2 ^ 63 ≤ w) × (w < 2 ^ 64) × (paid ≤ total))

abbrev Remains : ℕ → ℕ → ℕ → Option ℕ → Type 0
Remains before total paid none = paid ≡ before
Remains before total paid (some w) = Within total paid w

amount_covered :
    (total paid bal amount : ℕ)
    → amount < 2 ^ 63
    → lt_i64 bal amount ≡ false
    → Within total paid bal
    → (amount ≤ bal) × (bal < 2 ^ 63) × (bal + paid ≤ total)
amount_covered total paid bal amount ha enough (inl (small, sum)) = (ground arith, small, sum)
amount_covered total paid bal amount ha enough (inr (large, fits, sum)) = absurd (ground arith)

charged_Within :
    (total paid bal amount fee left : ℕ)
    → amount < 2 ^ 63
    → fee < 2 ^ 63
    → (amount ≤ bal) × (bal < 2 ^ 63) × (bal + paid ≤ total)
    → (left ≡ bal) ⊎ (left ≡ sub_u64 bal fee)
    → Within total (paid + amount) (sub_u64 left amount)
charged_Within total paid bal amount fee left ha hf h (inl same) =
    rw same (inl (omega (arith, h.0, h.1, h.2), omega (arith, h.0, h.1, h.2)))
charged_Within total paid bal amount fee left ha hf h (inr same) =
    rw same (elim (Bool-cases (ltb bal (fee + amount))) [
      | inl over ↦
          let more = ltb→lt bal (fee + amount) over in
          inr (
            omega (arith, h.0, h.1, h.2),
            omega (arith, h.0, h.1, h.2),
            omega (arith, h.0, h.1, h.2),
          )
      | inr within ↦
          let less = ltb-false→le bal (fee + amount) within in
          inl (omega (arith, h.0, h.1, h.2), omega (arith, h.0, h.1, h.2))
    ])

module _ (b : Badger) (sha3 : Bytes → Bytes) (db : Db) where
  open b use {Txn, get, put}

  available_put :
      (s s' : Txn) (x a : Bytes)
      → IsAddress a
      → put s (e_map_key nonce_map x) (e64func 1) ≡ some s'
      → available b sha3 db s' a ≡ available b sha3 db s a
  unfolding available mget
  available_put s s' x a h p =
      let k = e_map_key nonce_map x in
      let one : get s' a ≡ get s a =
        ground (arith, b.get-put s s' k (e64func 1) a p, map_key-ne nonce_map x a h) in
      let two : get s' (e_map_key lock_map a) ≡ get s (e_map_key lock_map a) =
        ground (arith, b.get-put s s' k (e64func 1) (e_map_key lock_map a) p, lock_key-ne x a) in
      rw (one, two) refl

  available_kept :
      (s : Txn) (x a : Bytes) (commits : Bool)
      → IsAddress a
      → available b sha3 db (get_nonce b sha3 db s x commits).0 a ≡ available b sha3 db s a
  unfolding get_nonce mget mset keep
  available_kept s x a commits h = elim (Bool-cases (is_value (mget b s nonce_map x))) [
    | inl there ↦ rw there refl
    | inr missing ↦ elim (Bool-cases commits) [
      | inr lost ↦ rw (missing, lost, keep) refl
      | inl done ↦ elim (Option-cases (put s (e_map_key nonce_map x) (e64func 1))) [
        | inl refused ↦ rw (missing, done, refused, keep) refl
        | inr (s', p) ↦ rw (missing, done, p, keep) (available_put s s' x a h p)
      ]
    ]
  ]

  module _ (a : Bytes) (address : IsAddress a) (total before here : ℕ) (fits : here < 2 ^ 63)
      (sum : total ≡ here + before) where
    -- What holds of the sender in every round.
    abbrev Solvent : Pending b → Type 0
    Solvent p =
        (available b sha3 db p.chain a ≡ here)
        × Remains before total (amount_of a p.pending) (lookup a p.balance)

    Remains_some :
        (paid w : ℕ) (o : Option ℕ) → o ≡ some w → Remains before total paid o → Within total paid w
    Remains_some paid w none e h = cc
    Remains_some paid w (some x) e h = let same : w ≡ x = cc in rw same h

    Remains_none :
        (paid : ℕ) (o : Option ℕ) → o ≡ none → Remains before total paid o → paid ≡ before
    Remains_none paid none e h = h
    Remains_none paid (some x) e h = cc

    Remains_insert :
        (paid w : ℕ) (k : Bytes) (m : Dict ℕ)
        → ((k ≡ a) → Within total paid w)
        → ((k ≢ a) → Remains before total paid (lookup a m))
        → Remains before total paid (lookup a (insert k w m))
    Remains_insert paid w k m hit miss = elim (Bool-cases (bytes_eq k a)) [
      | inl e ↦ rw (lookup-insert a k w m, e) (hit ((bytes_eq_iff k a).0 e))
      | inr e ↦ rw (lookup-insert a k w m, e) (miss (bytes_eq-false→ne k a e))
    ]

    taken :
        (tx u : Transaction) (p : Pending b) (bal left : ℕ)
        → oversized tx ≡ false
        → u.from ≡ tx.from
        → u.amount ≡ tx.amount
        → (left ≡ bal) ⊎ (left ≡ sub_u64 bal tx.fee)
        → lookup tx.from p.balance ≡ some bal
        → lt_i64 bal tx.amount ≡ false
        → Remains before total (amount_of a p.pending) (lookup a p.balance)
        → Remains before total
            (amount_of a (p.pending ++ u ∷ []))
            (lookup a (insert u.from (sub_u64 left u.amount) p.balance))
    taken tx u p bal left fine same amount charge e enough h =
        let small : tx.amount < 2 ^ 63 = ground arith in
        let cheap : tx.fee < 2 ^ 63 = ground arith in
        let paid = amount_of a p.pending in
        rw (amount_of-append a p.pending (u ∷ [])) (
          Remains_insert _ (sub_u64 left u.amount) u.from p.balance
            (λ mine.
              let at : lookup a p.balance ≡ some bal = rw (← mine, same) e in
              let whole : paid + amount_of a (u ∷ []) ≡ paid + tx.amount =
                ground (arith, bytes_eq_iff u.from a) in
              rw (whole, amount)
                (charged_Within total paid bal tx.amount tx.fee left small cheap
                  (amount_covered total paid bal tx.amount small enough
                    (Remains_some paid bal (lookup a p.balance) at h))
                  charge))
            (λ other.
              let none_more : paid + amount_of a (u ∷ []) ≡ paid =
                ground (arith, bytes_eq_iff u.from a) in
              rw none_more h))

    Solvent-Kept : (tx : Transaction) → oversized tx ≡ false → Kept b sha3 db Unit Solvent tx
    unfolding spent
    Solvent-Kept tx fine = record {
      scripts = λ scripted. tt;
      idle = λ p it q h. h;
      funds = λ p e h. (
        h.0,
        Remains_insert (amount_of a p.pending) (available b sha3 db p.chain tx.from) tx.from
            p.balance
            (λ mine.
              let av : available b sha3 db p.chain tx.from ≡ here = rw mine h.0 in
              let paid =
                Remains_none (amount_of a p.pending) (lookup a p.balance) (rw (← mine) e) h.1 in
              rw av (inl (fits, omega arith)))
            (λ other. h.1),
      );
      takes = λ p u bal left same amount charge e enough h.
          (h.0, taken tx u p bal left fine same amount charge e enough h.1);
    }

    Solvent-collect :
        (commits : Bool) (p : Pending b)
        → count oversized p.list ≡ 0
        → Solvent p
        → Gives Unit (collect b sha3 db (suc (length p.list)) commits p) Solvent
    Solvent-collect commits p fine h =
        collect-Gives b sha3 db Unit Solvent oversized Solvent-Kept (λ q l hq. hq)
          (λ q x c hq. (available_kept q.chain x a c address ∙ hq.0, hq.1)) (suc (length p.list))
          commits p (omega arith) fine h

  Remains_bound :
      (before total paid : ℕ) (o : Option ℕ)
      → before ≤ total
      → Remains before total paid o
      → paid ≤ total
  Remains_bound before total paid none base h = omega arith
  Remains_bound before total paid (some w) base (inl (small, within)) = omega arith
  Remains_bound before total paid (some w) base (inr (large, fits, within)) = within

  -- `Pendings` ends, and if it does not panic then the sum of a sender's amounts in the pending
  -- transactions has grown by no more than the sender's balance on the chain less what is locked of
  -- it. The fees are not counted: they can take more on top of it. The address starts with 'K', the
  -- amounts and fees in the pool and what can be spent are below 2^63, and the map of balances is
  -- empty, as the call before leaves it.
  pub pendings_solvent :
      (a : Bytes) (commits : Bool) (now : ℕ) (p : Pending b)
      → IsAddress a
      → count oversized p.list ≡ 0
      → available b sha3 db p.chain a < 2 ^ 63
      → p.balance ≡ []
      → Gives Unit
          (pendings b sha3 db commits now p)
          (λ p'. amount_of a p'.pending ≤ available b sha3 db p.chain a + amount_of a p.pending)
  unfolding pendings lookup
  pendings_solvent a commits now p address fine fits fresh =
      let here = available b sha3 db p.chain a in
      let before = amount_of a p.pending in
      finish-Gives b sha3 db Unit now (Solvent a address (here + before) before here fits refl)
        (λ p'. amount_of a p'.pending ≤ here + before)
        (collect b sha3 db (suc (length p.list)) commits p)
        (λ p' l q h.
          Remains_bound before (here + before) (amount_of a p'.pending) (lookup a p'.balance)
            (omega arith) h.1)
        (Solvent-collect a address (here + before) before here fits refl commits p fine
          (refl, rw fresh refl))
