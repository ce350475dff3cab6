-- ===== src/Txpool/Accepted.antt =====
-- What the pool has checked of a transaction that it takes.
use mathlib.Core.Path.{subst}
use raft_project.Common.{
  ℕ, ◌≤◌, ◌≡◌, ◌≢◌, refl, ap, ◌∙◌, Bool, true, false, not, ◌&&◌, ◌||◌, Option, none, some, [], ◌∷◌,
  arith,
}
use raft_project.Common.Tests.{ltb, ◌==◌, if◌then◌else◌}
use raft_project.Common.Lists.{Bytes, length}
use raft_project.Common.Outcome.{Outcome, ok, err, panic, ◌>>◌, fail_if, passed, gave, or_panic}
use raft_project.Codec.{e64func}
use raft_project.Store.{Badger, e_map_key, mget, mset}
use raft_project.Base58.{addr_to_pub}
use raft_project.Transaction.{Transaction}
use raft_project.Chain.{sub_u64, nonce_map, lock_map, keep, is_value}
use raft_project.Chain.Accounts.{IsAddress, map_key-ne}
use raft_project.Txpool.{
  AddError, errtx, is_kto, key_of, or_errtx, fetched_word, or_zero, signed_by, set_nonce,
  first_nonce, nonce_for, covered, ordered, authentic, verdict, verify,
}

last_check : (c : Bool) → fail_if c errtx ≡ ok tt → c ≡ false
last_check false h = refl
last_check true h = cc

signature_check :
    (sized signed : Bool)
    → (if sized then fail_if (not signed) errtx else panic) ≡ ok tt
    → signed ≡ true
signature_check true true h = refl
signature_check true false h = cc
signature_check false signed h = cc

module _ (b : Badger) (ed25519 : Bytes → Bytes → Bytes → Bool) (qtj : Bytes) where
  open b use {Txn, get}

  -- The sender's key has signed the transaction, and the receiver's address is one.
  abbrev pub IsAuthentic : Transaction → Type 0
  IsAuthentic tx =
      (key : Bytes) × (receiver : Bytes) × (key_of tx.from ≡ ok key)
      × (key_of tx.to ≡ ok receiver)
      × (ed25519 key tx.hash tx.signature ≡ true)

  -- The sender has the amount unlocked, and for a script the fee unlocked, and both are large
  -- enough; `nonce` is the least nonce.
  abbrev pub IsCovered : Txn → Transaction → ℕ → Type 0
  IsCovered s tx nonce =
      (bal : ℕ) × (fetched_word (get s tx.from) ≡ some bal)
      × (nonce ≤ tx.nonce)
      × (500000 ≤ tx.amount)
      × (tx.amount ≤ bal)
      × (tx.amount ≤ sub_u64 bal (or_zero (fetched_word (mget b s lock_map tx.from))))
      × ((tx.script ≢ [])
          → (500000 ≤ tx.fee)
            × (tx.fee ≤ sub_u64 bal (or_zero (fetched_word (mget b s lock_map tx.from)))))

  or_errtx-ok : (o : Option ℕ) (n : ℕ) → or_errtx o ≡ ok n → o ≡ some n
  or_errtx-ok none n h = cc
  or_errtx-ok (some m) n h = let same : m ≡ n = cc in rw same refl

  length-ne : (xs : Bytes) → xs ≢ [] → (length xs == 0) ≡ false
  length-ne [] h = absurd (h refl)
  length-ne (x ∷ xs) h = ground arith

  covered_lem :
      (s : Txn) (tx : Transaction) (nonce : ℕ)
      → covered b ed25519 qtj s tx nonce ≡ ok tt
      → IsCovered s tx nonce
  unfolding covered
  covered_lem s tx nonce h =
      let (not_old, h1) = passed (ltb tx.nonce nonce) errtx _ tt h in
      let (bal, known, h2) = gave _ tt (or_errtx (fetched_word (get s tx.from))) h1 in
      let ulb : ℕ = sub_u64 bal (or_zero (fetched_word (mget b s lock_map tx.from))) in
      let (has_amount, h3) = passed (ltb ulb tx.amount) errtx _ tt h2 in
      let script_fee : Bool =
        not (length tx.script == 0) && (ltb tx.fee 500000 || ltb ulb tx.fee) in
      let (has_fee, h4) = passed script_fee errtx _ tt h3 in
      let enough = last_check (ltb tx.amount 500000 || ltb bal tx.amount) h4 in
      (
        bal,
        or_errtx-ok (fetched_word (get s tx.from)) bal known,
        ground arith,
        ground arith,
        ground arith,
        ground arith,
        λ scripted. ground (arith, length-ne tx.script scripted),
      )

  key_signed :
      (key hash signature : Bytes)
      → signed_by b ed25519 qtj key hash signature ≡ ok tt
      → ed25519 key hash signature ≡ true
  unfolding signed_by
  key_signed key hash signature h =
      signature_check (length key == 32) (ed25519 key hash signature) h

  authentic_lem : (tx : Transaction) → authentic b ed25519 qtj tx ≡ ok tt → IsAuthentic tx
  unfolding authentic
  authentic_lem tx h =
      let (key, from_key, h1) = gave _ tt (key_of tx.from) h in
      let (receiver, to_key, h2) = gave _ tt (key_of tx.to) h1 in
      (key, receiver, from_key, to_key, key_signed key tx.hash tx.signature h2)

  verdict_lem :
      (s s' : Txn) (tx : Transaction) (a : Outcome AddError (Unit {0})) (read : Option (Txn × ℕ))
      → verdict b ed25519 qtj s tx a read ≡ (s', ok tt)
      → (a ≡ ok tt)
        × (nonce : ℕ) × (read ≡ some (s', nonce))
        × ((covered b ed25519 qtj s' tx nonce >> ordered b ed25519 qtj tx) ≡ ok tt)
  unfolding verdict
  verdict_lem s s' tx panic read h = let e = ap (λ p. p.1) h in cc e
  verdict_lem s s' tx (err e) read h = let e' = ap (λ p. p.1) h in cc e'
  verdict_lem s s' tx (ok tt) none h = let e = ap (λ p. p.1) h in cc e
  verdict_lem s s' tx (ok tt) (some (s1, nonce)) h =
      let at_end : s1 ≡ s' = ap (λ p. p.0) h in
      (
        refl,
        nonce,
        rw at_end refl,
        subst (λ t. (covered b ed25519 qtj t tx nonce >> ordered b ed25519 qtj tx) ≡ ok tt) at_end
            (ap (λ p. p.1) h),
      )

  -- The state of a result, or another one.
  state_of : Txn → Option (Txn × ℕ) → Txn
  state_of s none = s
  state_of s (some (t, n)) = t

  set_nonce-get :
      (s s' : Txn) (addr : Bytes) (n : ℕ) (commits : Bool) (j : Bytes)
      → IsAddress j
      → set_nonce b ed25519 qtj s addr n commits ≡ some s'
      → get s' j ≡ get s j
  unfolding set_nonce mset
  set_nonce-get s s' addr n false j at_j h = cc h
  set_nonce-get s s' addr n true j at_j h =
      b.get-put s s' (e_map_key nonce_map addr) (e64func n) j h
      ∙ rw (map_key-ne nonce_map addr j at_j) refl

  first_nonce-get :
      (s s' : Txn) (o : Option ℕ) (there : Bool) (written : Option Txn) (nonce : ℕ) (j : Bytes)
      → ((t : Txn) → written ≡ some t → get t j ≡ get s j)
      → first_nonce b ed25519 qtj s o there written ≡ some (s', nonce)
      → get s' j ≡ get s j
  unfolding first_nonce keep state_of
  first_nonce-get s s' (some n) there written nonce j same h =
      let e : s ≡ s' = ap (state_of s) h in rw (← e) refl
  first_nonce-get s s' none true none nonce j same h = cc h
  first_nonce-get s s' none true (some t) nonce j same h =
      let e : t ≡ s' = ap (state_of s) h in rw (← e) (same t refl)
  first_nonce-get s s' none false none nonce j same h =
      let e : s ≡ s' = ap (state_of s) h in rw (← e) refl
  first_nonce-get s s' none false (some t) nonce j same h =
      let e : t ≡ s' = ap (state_of s) h in rw (← e) (same t refl)

  -- If `verify` accepts a transaction, its sender and receiver have addresses with keys of 32 bytes,
  -- the sender's key has signed it, the nonce is not below the sender's, the sender has the amount
  -- and, for a script, the fee, each by itself in the balance that is not locked, each of at least
  -- 500000; and no account has another value than before.
  pub verify_lem :
      (s s' : Txn) (tx : Transaction) (commits : Bool)
      → verify b ed25519 qtj s tx commits ≡ (s', ok tt)
      → IsAuthentic tx
        × (nonce : ℕ) × (nonce_for b ed25519 qtj s tx.from commits ≡ some (s', nonce))
        × IsCovered s' tx nonce
        × ((j : Bytes) → IsAddress j → get s' j ≡ get s j)
  unfolding verify nonce_for
  verify_lem s s' tx commits h =
      let v = mget b s nonce_map tx.from in
      let written = set_nonce b ed25519 qtj s tx.from 1 commits in
      let (first, nonce, read, checked) =
        verdict_lem s s' tx (authentic b ed25519 qtj tx) (nonce_for b ed25519 qtj s tx.from commits)
          h in
      let (_, funds, _) =
        gave (λ _. ordered b ed25519 qtj tx) tt (covered b ed25519 qtj s' tx nonce) checked in
      (
        authentic_lem tx first,
        nonce,
        read,
        covered_lem s' tx nonce funds,
        λ j at_j.
            first_nonce-get s s' (fetched_word v) (is_value v) written nonce j
              (λ t wrote. set_nonce-get s t tx.from 1 commits j at_j wrote) read,
      )

  fee_check :
      (script : Bytes) (c : Bool)
      → ((script ≢ []) → c ≡ false)
      → (not (length script == 0) && c) ≡ false
  fee_check [] c h = refl
  fee_check (x ∷ script) c h =
      let some_script : (x ∷ script) ≢ [] = λ e. omega (arith, ap length e) in
      let no = h some_script in ground arith

  length-key_of : (addr key : Bytes) → key_of addr ≡ ok key → length key ≡ 32
  unfolding key_of
  length-key_of addr key h =
      let (_, h1) = passed (not (is_kto addr)) errtx _ key h in
      let (found_key, _, h2) = gave _ key (or_panic (addr_to_pub addr)) h1 in
      let (sized, h3) = passed (not (length found_key == 32)) errtx (ok found_key) key h2 in
      let same : found_key ≡ key = cc h3 in rw (← same) (ground arith)

  covered_ok :
      (s : Txn) (tx : Transaction) (nonce : ℕ)
      → IsCovered s tx nonce
      → covered b ed25519 qtj s tx nonce ≡ ok tt
  unfolding covered
  covered_ok s tx nonce (bal, known, later, enough, within, free, scripted) =
      let ulb : ℕ = sub_u64 bal (or_zero (fetched_word (mget b s lock_map tx.from))) in
      let not_old : ltb tx.nonce nonce ≡ false = ground arith in
      let has_amount : ltb ulb tx.amount ≡ false = ground arith in
      let has_fee : (not (length tx.script == 0) && (ltb tx.fee 500000 || ltb ulb tx.fee)) ≡ false =
        fee_check tx.script (ltb tx.fee 500000 || ltb ulb tx.fee)
          (λ f. let fee = scripted f in ground arith) in
      let fits : (ltb tx.amount 500000 || ltb bal tx.amount) ≡ false = ground arith in
      rw (not_old, known, has_amount, has_fee, fits) refl

  -- A transaction without an order whose addresses, signature, nonce and funds are right is accepted.
  pub verify_accepts :
      (s s' : Txn) (tx : Transaction) (commits : Bool) (nonce : ℕ)
      → IsAuthentic tx
      → nonce_for b ed25519 qtj s tx.from commits ≡ some (s', nonce)
      → IsCovered s' tx nonce
      → tx.ord.signature ≡ []
      → verify b ed25519 qtj s tx commits ≡ (s', ok tt)
  unfolding verify verdict authentic signed_by ordered
  verify_accepts s s' tx commits nonce (key, receiver, from_key, to_key, signed) read funds unsold =
      let sized = length-key_of tx.from key from_key in
      let unsigned : (length tx.ord.signature == 0) ≡ true = rw unsold refl in
      let is_sized : (length key == 32) ≡ true = ground arith in
      rw (from_key, to_key, is_sized, signed, read, covered_ok s' tx nonce funds, unsigned) refl
