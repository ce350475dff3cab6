-- ===== src/Chain/Block/Applied.antt =====
-- `AddBlock` applies a block to the ledger.

use raft_project.Common.{
  ℕ, ◌≡◌, ◌≢◌, refl, sym, ap, ◌∙◌, inl, inr, Bool, true, false, Option, none, some, List, [], ◌∷◌,
  arith,
}
use raft_project.Common.Tests.{◌==◌, Bool-cases}
use raft_project.Common.Lists.{Bytes, bytes_eq, bytes_eq_iff, codes, length, All}
use raft_project.Common.Outcome.{Outcome, ok, err, panic, and_then-some}
use raft_project.Codec.{e64func}
use raft_project.Store.{Badger, found, e_map_key, mset}
use raft_project.Transaction.{Transaction}
use raft_project.Contract.Exec.{Db, ExecError, flush}
use raft_project.Contract.Grammar.{parser}
use raft_project.Chain.{
  add_u64, fetched_u64, keep, u64_or_zero, set_account, set_miner_account, set_miner_fee,
}
use raft_project.Chain.Accounts.{
  IsAddress, map_key-ne, balance_of, set_account_lem, set_miner_account_lem, set_miner_fee_lem,
  get-put_kept, get-delete_kept,
}
use raft_project.Store.{Willing}
use raft_project.Chain.Distr.{MinerTx}
use raft_project.Chain.Block.{
  Blocks, AddBlockError, Contracts, settled, executed, run_script, on_ok, set_tx_by_addr,
  set_block_data, add_account, add_scripted, add_transaction, add_transactions, pay_miners,
  add_header, add_block,
}
use raft_project.Chain.Block.Ledger.{
  IsScripted, HasScript, Ledger, credit, move, settle, settle_all, credit_all,
}

-- The same transaction but for its message.
settled_lem :
    (db : Db) (tx : Transaction) (r : Outcome ExecError Db)
    → (e : Bytes) × ((settled db tx r).1 ≡ record tx { errmsg = e })
settled_lem db tx (ok db') = (tx.errmsg, refl)
settled_lem db tx (err e) = (codes "flush code is failed", refl)
settled_lem db tx panic = (tx.errmsg, refl)

height-ne : (j : Bytes) → IsAddress j → bytes_eq (codes "height") j ≡ false
unfolding bytes_eq
height-ne [] h = absurd h
height-ne (c ∷ j) h = ground arith

-- An address that is spelled like no other key that the block writes: not like its hash, one of its
-- transactions' hashes or an encoded height.
abbrev pub IsAccount : Blocks → Bytes → Type 0
IsAccount blk j = IsAddress j × (length j ≢ 8) × (blk.hash ≢ j) × All (λ tx. tx.hash ≢ j) blk.txs

module _ (b : Badger) (w : Willing b) (V : Bytes → Type 0) where
  open b use {Txn}

  -- The balances of the accounts are the ledger's.
  abbrev pub Agree : Txn → Ledger → Type 0
  Agree s f = (j : Bytes) → V j → balance_of b w s j ≡ f j

  -- A success agrees with the ledger; there is no error, and a panic only for `P`.
  abbrev pub Result : Type 0 → Ledger → Outcome AddBlockError Txn → Type 0
  Result P f (ok s) = Agree s f
  Result P f (err e) = ⊥
  Result P f panic = P

module _ (b : Badger) (w : Willing b) (to_json : Transaction → Option Bytes)
    (marshals : (tx : Transaction) → (text : Bytes) × (to_json tx ≡ some text)) where
  open b use {Txn, get, put, delete}

  mset_lem :
      (s : Txn) (m k v : Bytes)
      → (s' : Txn) × (mset b s m k v ≡ some s') × ((j : Bytes) → IsAddress j → get s' j ≡ get s j)
  unfolding mset
  mset_lem s m k v =
      let (s', e) = w.puts s (e_map_key m k) v in
      (s', e, λ j h. b.get-put s s' (e_map_key m k) v j e ∙ rw (map_key-ne m k j h) refl)

  put_lem :
      (s : Txn) (k v : Bytes)
      → (s' : Txn) × (put s k v ≡ some s') × ((j : Bytes) → k ≢ j → get s' j ≡ get s j)
  put_lem s k v =
      let (s', e) = w.puts s k v in
      (s', e, λ j h. b.get-put s s' k v j e ∙ ground (arith, bytes_eq_iff k j))

  overwrite_height :
      (s : Txn) (v j : Bytes)
      → IsAddress j
      → let s' = keep (delete s (codes "height")) s in
        get (keep (put s' (codes "height") v) s') j ≡ get s j
  overwrite_height s v j h =
      let s' = keep (delete s (codes "height")) s in
      ground (
        arith,
        get-put_kept b w s' (codes "height") v j,
        get-delete_kept b w s (codes "height") j,
        height-ne j h,
      )

  set_tx_by_addr_lem :
      (s : Txn) (addr : Bytes) (tx : Transaction)
      → (s' : Txn) × (set_tx_by_addr b to_json s addr tx ≡ some s')
        × ((j : Bytes) → IsAddress j → get s' j ≡ get s j)
  unfolding set_tx_by_addr
  set_tx_by_addr_lem s addr tx = let (text, e) = marshals tx in rw e (mset_lem s addr tx.hash text)

  set_block_data-get :
      (s : Txn) (block_hash tx_hash tx_data h j : Bytes)
      → IsAddress j
      → tx_hash ≢ j
      → get (set_block_data b to_json s block_hash tx_hash tx_data h) j ≡ get s j
  unfolding set_block_data keep
  set_block_data-get s block_hash tx_hash tx_data h j at_j apart =
      let (s1, e1, same1) = mset_lem s block_hash tx_hash tx_data in
      let (s2, e2, same2) = mset_lem s1 tx_hash tx_data h in
      let (s3, e3, same3) = put_lem s2 tx_hash tx_data in
      rw (e1, e2, e3, set_block_data) (same3 j apart ∙ same2 j at_j ∙ same1 j at_j)

  module _ (V : Bytes → Type 0) (addresses : (j : Bytes) → V j → IsAddress j) where
    on_ok-Result :
        (P Q : Type 0) (f g : Ledger) (p : Db × Outcome AddBlockError Txn)
        (F : Db → Txn → Db × Outcome AddBlockError Txn)
        → Result b w V P f p.1
        → ((db : Db) (s : Txn) → Agree b w V s f → Result b w V Q g (F db s).1)
        → (P → Q)
        → Result b w V Q g (on_ok p F).1
    on_ok-Result P Q f g (db, ok s) F r next weaken = next db s r
    on_ok-Result P Q f g (db, err e) F r next weaken = absurd r
    on_ok-Result P Q f g (db, panic) F r next weaken = weaken r

    Result-weaken :
        (P Q : Type 0) (f : Ledger) (r : Outcome AddBlockError Txn)
        → Result b w V P f r
        → (P → Q)
        → Result b w V Q f r
    Result-weaken P Q f (ok s) r weaken = r
    Result-weaken P Q f (err e) r weaken = absurd r
    Result-weaken P Q f panic r weaken = weaken r

    kept :
        (s s' : Txn) (f : Ledger)
        → ((j : Bytes) → V j → get s' j ≡ get s j)
        → Agree b w V s f
        → Agree b w V s' f
    kept s s' f same agree = λ j v. ap fetched_u64 (same j v) ∙ agree j v

    add_account_lem :
        (blk : Blocks) (h : ℕ) (s : Txn) (tx : Transaction) (f : Ledger)
        → V tx.from
        → V tx.to
        → ((j : Bytes) → V j → tx.hash ≢ j)
        → Agree b w V s f
        → (s' : Txn) × (add_account b to_json blk h s tx ≡ some s') × Agree b w V s' (move tx f)
    unfolding add_account
    add_account_lem blk h s tx f from to apart agree =
        let (s1, e1, same1) = set_tx_by_addr_lem s tx.from tx in
        let (s2, e2, same2) = set_tx_by_addr_lem s1 tx.to tx in
        let s3 = set_account b s2 tx.from tx.to tx.amount tx.nonce tx.fee in
        let (text, e3) = marshals tx in
        let before : Agree b w V s2 f =
          kept s s2 f (λ j v. same2 j (addresses j v) ∙ same1 j (addresses j v)) agree in
        (
          set_block_data b to_json s3 blk.hash tx.hash text (e64func h),
          rw (e1, e2, e3) refl,
          λ j v.
              ap fetched_u64 (
                set_block_data-get s3 blk.hash tx.hash text (e64func h) j (addresses j v)
                  (apart j v))
              ∙ (set_account_lem b w s2 tx.from tx.to tx.amount tx.nonce tx.fee j (addresses j v)).0
              ∙ rw (before tx.to to, before tx.from from, before j v) refl,
        )

    credit_lem :
        (s : Txn) (f : Ledger) (a : Bytes) (n : ℕ)
        → V a
        → Agree b w V s f
        → Agree b w V (set_miner_account b s a n) (credit a n f)
          × Agree b w V (set_miner_fee b s a n) (credit a n f)
    credit_lem s f a n at_a agree = (
      λ j v. set_miner_account_lem b w s a n j ∙ rw (agree a at_a, agree j v) refl,
      λ j v. set_miner_fee_lem b w s a n j ∙ rw (agree a at_a, agree j v) refl,
    )

    pay_miners_lem :
        (ms : List MinerTx) (s : Txn) (f : Ledger)
        → All (λ m. V m.rec_address) ms
        → Agree b w V s f
        → Agree b w V (pay_miners b to_json ms s) (credit_all ms f)
    unfolding pay_miners credit_all
    pay_miners_lem [] s f h agree = agree
    pay_miners_lem (m ∷ ms) s f h agree =
        pay_miners_lem ms (set_miner_account b s m.rec_address m.amount)
          (credit m.rec_address m.amount f) h.1 (credit_lem s f m.rec_address m.amount h.0 agree).0

    HasAccounts : List Transaction → Type 0
    HasAccounts = All (λ tx. V tx.from × V tx.to × ((j : Bytes) → V j → tx.hash ≢ j))

    add_scripted_lem :
        (minaddr : Bytes) (blk : Blocks) (h : ℕ) (db : Db) (s : Txn) (f : Ledger) (tx : Transaction)
        (r : Option (Db × Transaction))
        → V minaddr
        → V tx.from
        → V tx.to
        → ((j : Bytes) → V j → tx.hash ≢ j)
        → ((db' : Db) (tx' : Transaction)
            → r ≡ some (db', tx')
            → (e : Bytes) × (tx' ≡ record tx { errmsg = e }))
        → Agree b w V s f
        → Result b w V
            (Unit {0})
            (move tx (credit minaddr tx.fee f))
            (add_scripted b to_json minaddr blk h db s r).1
    unfolding add_scripted
    add_scripted_lem minaddr blk h db s f tx none miner from to apart same agree = tt
    add_scripted_lem minaddr blk h db s f tx (some (db', tx')) miner from to apart same agree =
        let (e, is) = same db' tx' refl in
        let paid = (credit_lem s f minaddr tx.fee miner agree).1 in
        let (s', added, agree') =
          add_account_lem blk h (set_miner_fee b s minaddr tx.fee) (record tx { errmsg = e })
            (credit minaddr tx.fee f) from to apart paid in
        rw (is, added) agree'

    run_script_lem :
        (c : Contracts) (db db' : Db) (tx tx' : Transaction)
        → run_script c db tx ≡ some (db', tx')
        → (e : Bytes) × (tx' ≡ record tx { errmsg = e })
    unfolding run_script
    run_script_lem c db db' tx tx' h =
        let (mp, _, is) =
          and_then-some (executed (parser tx.script) db tx.from)
            (λ mp. some (settled db tx (flush c.accepts c.commits mp db))) (db', tx') h in
        let (e, same) = settled_lem db tx (flush c.accepts c.commits mp db) in
        (
          e,
          (let pair : settled db tx (flush c.accepts c.commits mp db) ≡ (db', tx') = cc is in
              sym (ap (λ p. p.1) pair) ∙ same),
        )

    pub add_transaction_lem :
        (c : Contracts) (minaddr : Bytes) (blk : Blocks) (h : ℕ) (db : Db) (s : Txn) (f : Ledger)
        (tx : Transaction)
        → V minaddr
        → V tx.from
        → V tx.to
        → ((j : Bytes) → V j → tx.hash ≢ j)
        → Agree b w V s f
        → Result b w V
            (IsScripted tx)
            (settle minaddr tx f)
            (add_transaction b to_json c minaddr blk h db s tx).1
    unfolding add_transaction
    add_transaction_lem c minaddr blk h db s f tx miner from to apart agree =
        elim (Bool-cases (length tx.script == 0)) [
          | inl plain ↦
              let (s', added, agree') = add_account_lem blk h s tx f from to apart agree in
              rw (plain, added) agree'
          | inr scripted ↦
              let r =
                add_scripted_lem minaddr blk h db s f tx (run_script c db tx) miner from to apart
                  (λ db' tx' e. run_script_lem c db db' tx tx' e) agree in
              rw scripted (
                Result-weaken (Unit {0}) (◌≡◌ {A = Bool} false false)
                  (move tx (credit minaddr tx.fee f))
                  (add_scripted b to_json minaddr blk h db s (run_script c db tx)).1 r (λ _. refl))
        ]

    add_transactions_lem :
        (c : Contracts) (minaddr : Bytes) (blk : Blocks) (h : ℕ) (txs : List Transaction) (db : Db)
        (s : Txn) (f : Ledger)
        → V minaddr
        → HasAccounts txs
        → Agree b w V s f
        → Result b w V
            (HasScript txs)
            (settle_all minaddr txs f)
            (add_transactions b to_json c minaddr blk h txs db s).1
    unfolding add_transactions settle_all HasAccounts
    add_transactions_lem c minaddr blk h [] db s f miner v agree = agree
    add_transactions_lem c minaddr blk h (tx ∷ txs) db s f miner v agree =
        on_ok-Result (IsScripted tx) (HasScript (tx ∷ txs)) (settle minaddr tx f)
          (settle_all minaddr txs (settle minaddr tx f))
          (add_transaction b to_json c minaddr blk h db s tx)
          (add_transactions b to_json c minaddr blk h txs)
          (add_transaction_lem c minaddr blk h db s f tx miner v.0.0 v.0.1 v.0.2 agree)
          (λ db' s' agree'.
            Result-weaken (HasScript txs) (HasScript (tx ∷ txs))
              (settle_all minaddr txs (settle minaddr tx f))
              (add_transactions b to_json c minaddr blk h txs db' s').1
              (add_transactions_lem c minaddr blk h txs db' s' (settle minaddr tx f) miner v.1
                agree')
              (λ later. inr later))
          (λ here. inl here)

    add_header_lem :
        (to_bytes : Blocks → Bytes) (blk : Blocks) (v : Bytes) (h : ℕ) (s : Txn)
        → ((j : Bytes) → V j → blk.hash ≢ j)
        → ((j : Bytes) → V j → v ≢ j)
        → (s' : Txn) × (add_header b to_json to_bytes blk v h s ≡ some s')
          × ((j : Bytes) → V j → get s' j ≡ get s j)
    unfolding add_header
    add_header_lem to_bytes blk v h s hash_apart height_apart =
        let (s1, e1, same1) = mset_lem s (e64func h) (codes "hash") blk.hash in
        let (s2, e2, same2) = put_lem s1 blk.hash (to_bytes blk) in
        let (s3, e3, same3) = put_lem s2 v (e64func (add_u64 h 1)) in
        let s4 = keep (delete s3 (codes "height")) s3 in
        (
          keep (put s4 (codes "height") (e64func h)) s4,
          rw (e1, e2, e3) refl,
          λ j at_j.
              overwrite_height s3 (e64func h) j (addresses j at_j)
              ∙ same3 j (height_apart j at_j)
              ∙ same2 j (hash_apart j at_j)
              ∙ same1 j (addresses j at_j),
        )

    has_accounts :
        (txs : List Transaction)
        → All (λ tx. V tx.from × V tx.to) txs
        → ((j : Bytes) → V j → All (λ tx. tx.hash ≢ j) txs)
        → HasAccounts txs
    unfolding HasAccounts
    has_accounts [] h apart = tt
    has_accounts (tx ∷ txs) h apart =
        ((h.0.0, h.0.1, λ j v. (apart j v).0), has_accounts txs h.1 (λ j v. (apart j v).1))

  -- On a store that takes every write and the commit, that holds a height of 8 bytes, and with
  -- transactions that can all be marshalled, `AddBlock` returns no error, whatever the contract
  -- database does, and it panics only if some transaction of the block has a script. When it
  -- returns, every account has the balance of the ledger to which the payments of the block and
  -- then its transactions are applied, in their order. An account is an address that starts with
  -- 'K', has not 8 bytes, and is spelled unlike the block's hash and the hashes of its
  -- transactions; the miner, the payees, the senders and the receivers are accounts.
  pub add_block_lem :
      (c : Contracts) (to_bytes : Blocks → Bytes) (minaddr v : Bytes) (blk : Blocks) (db : Db)
      (s : Txn)
      → get s (codes "height") ≡ found v
      → length v ≡ 8
      → IsAccount blk minaddr
      → All (λ m. IsAccount blk m.rec_address) blk.first_tx
      → All (λ tx. IsAccount blk tx.from × IsAccount blk tx.to) blk.txs
      → Result b w
          (IsAccount blk)
          (HasScript blk.txs)
          (settle_all minaddr blk.txs (credit_all blk.first_tx (balance_of b w s)))
          (add_block b to_json c to_bytes true minaddr blk db s).1
  unfolding add_block
  add_block_lem c to_bytes minaddr v blk db s stored size miner payees accounts =
      let V : Bytes → Type 0 = IsAccount blk in
      let at : (j : Bytes) → V j → IsAddress j = λ j a. a.0 in
      let h = add_u64 (u64_or_zero v) 1 in
      let short : (j : Bytes) → V j → v ≢ j = λ j a e. a.1 (sym (ap length e) ∙ size) in
      let (s1, added, same) = add_header_lem V at to_bytes blk v h s (λ j a. a.2) short in
      let start = kept V at s s1 (balance_of b w s) same (λ j a. refl) in
      let paid = pay_miners_lem V at blk.first_tx s1 (balance_of b w s) payees start in
      let all = has_accounts V at blk.txs accounts (λ j a. a.3) in
      let f : Ledger = credit_all blk.first_tx (balance_of b w s) in
      let done =
        add_transactions_lem V at c minaddr blk h blk.txs db (pay_miners b to_json blk.first_tx s1)
          f miner all paid in
      let finish : Db → b.Txn → Db × Outcome AddBlockError b.Txn = λ db2 s2. (db2, ok s2) in
      let goal = settle_all minaddr blk.txs f in
      rw (stored, add_block, added)
        (on_ok-Result V at (HasScript blk.txs) (HasScript blk.txs) goal goal
          (add_transactions b to_json c minaddr blk h blk.txs db
            (pay_miners b to_json blk.first_tx s1))
          finish done (λ db2 s2 a. a) (λ x. x))
