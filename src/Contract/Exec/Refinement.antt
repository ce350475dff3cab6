-- ===== src/Contract/Exec/Refinement.antt =====
-- The operations of the executor implement those of the token.
use raft_project.Common.{
  ℕ, ◌+◌, ◌-◌, ◌%◌, ◌^◌, ◌<◌, ◌≡◌, refl, true, false, inl, inr, [], ◌∷◌, ◌++◌, arith,
}
use raft_project.Common.Tests.{ltb, if◌then◌else◌, Bool-cases}
use raft_project.Common.Lists.{Bytes, bytes_eq, codes}
use raft_project.Common.Outcome.{Outcome, ok, err}
use raft_project.Common.Dict.{insert, lookup-insert}
use raft_project.Codec.{e64func}
use raft_project.Codec.Words.{le_decode-le_encode8}
use raft_project.Contract.Script.{num, text, amount, address, token_id, Script}
use raft_project.Contract.Exec.{
  Db, Changes, found, ExecError, a_key, b_key, f_key, uint64, read_balance, read_frozen, is_one,
  deal1, deal2, deal3, deal4,
}
use raft_project.Contract.Exec.Token.{Token, update, transfer, mint, set_frozen}

-- The database and the changes hold the token `id` in the state `t`.
pub record Represents (db : Db) (mp : Changes) (id : Bytes) (t : Token) : Type 0 where
  pub owned : db (a_key id) ≡ found t.owner
  pub balances : (a : Bytes) → read_balance db mp (b_key id a) ≡ ok (t.balance a)
  pub flags : (a : Bytes) → read_frozen db mp (f_key id a) ≡ ok (t.frozen a)
  pub in_range : (a : Bytes) → t.balance a < 2 ^ 64

-- The code's result is that of the token: the same error, or changes that hold the new state.
abbrev pub Implements : Db → Bytes → Outcome ExecError Changes → Outcome ExecError Token → Type 0
Implements db id (ok mp) (ok t) = Represents db mp id t
Implements db id (err e) (err e') = e ≡ e'
Implements db id _ _ = ⊥

-- Keys with a common beginning are told apart by what follows it.
pub bytes_eq-append : (p xs ys : Bytes) → bytes_eq (p ++ xs) (p ++ ys) ≡ bytes_eq xs ys
unfolding bytes_eq
bytes_eq-append [] xs ys = refl
bytes_eq-append (c ∷ p) xs ys = ground (arith, bytes_eq-append p xs ys)

bytes_eq-b_key : (id a b : Bytes) → bytes_eq (b_key id a) (b_key id b) ≡ bytes_eq a b
unfolding bytes_eq
bytes_eq-b_key id a b = bytes_eq-append id a b

bytes_eq-f_key : (id a b : Bytes) → bytes_eq (f_key id a) (f_key id b) ≡ bytes_eq a b
unfolding bytes_eq
bytes_eq-f_key id a b = bytes_eq-append id a b

bytes_eq-b_key-f_key : (id a b : Bytes) → bytes_eq (b_key id a) (f_key id b) ≡ false
unfolding bytes_eq
bytes_eq-b_key-f_key id a b = refl

pub uint64-e64func : (n : ℕ) → uint64 (e64func n) ≡ ok (n % 2 ^ 64)
unfolding uint64 e64func
uint64-e64func n = ground (arith, le_decode-le_encode8 n)

module _ (db : Db) (mp : Changes) (id : Bytes) where
  -- A balance that is written is read back, and no other balance or flag of the token changes.
  read_balance-insert :
      (k a : Bytes) (n : ℕ)
      → read_balance db (insert (b_key id k) (e64func n) mp) (b_key id a)
        ≡ (if bytes_eq k a then ok (n % 2 ^ 64) else read_balance db mp (b_key id a))
  unfolding read_balance
  read_balance-insert k a n = ground (
    arith,
    lookup-insert (b_key id a) (b_key id k) (e64func n) mp,
    bytes_eq-b_key id k a,
    uint64-e64func n,
  )

  read_frozen-insert_balance :
      (k a v : Bytes)
      → read_frozen db (insert (b_key id k) v mp) (f_key id a) ≡ read_frozen db mp (f_key id a)
  unfolding read_frozen
  read_frozen-insert_balance k a v =
      ground (arith, lookup-insert (f_key id a) (b_key id k) v mp, bytes_eq-b_key-f_key id k a)

  read_balance-insert_flag :
      (k a v : Bytes)
      → read_balance db (insert (f_key id k) v mp) (b_key id a) ≡ read_balance db mp (b_key id a)
  unfolding read_balance bytes_eq
  read_balance-insert_flag k a v = ground (arith, lookup-insert (b_key id a) (f_key id k) v mp)

  read_frozen-insert_flag :
      (k a v : Bytes)
      → read_frozen db (insert (f_key id k) v mp) (f_key id a)
        ≡ (if bytes_eq k a then ok (is_one v) else read_frozen db mp (f_key id a))
  unfolding read_frozen
  read_frozen-insert_flag k a v =
      ground (arith, lookup-insert (f_key id a) (f_key id k) v mp, bytes_eq-f_key id k a)

-- Writing one balance, or one flag, does so in the token.
pub insert_balance-Represents :
    (db : Db) (mp : Changes) (id : Bytes) (t : Token) (k : Bytes) (n : ℕ)
    → Represents db mp id t
    → n < 2 ^ 64
    → Represents db
        (insert (b_key id k) (e64func n) mp)
        id
        (record t { balance = update t.balance k n })
insert_balance-Represents db mp id t k n r h = record {
  owned = r.owned;
  balances = λ a. ground (arith, read_balance-insert db mp id k a n, r.balances a);
  flags = λ a. ground (arith, read_frozen-insert_balance db mp id k a (e64func n), r.flags a);
  in_range = λ a. ground (arith, r.in_range a);
}

pub insert_flag-Represents :
    (db : Db) (mp : Changes) (id : Bytes) (t : Token) (k v : Bytes)
    → Represents db mp id t
    → Represents db
        (insert (f_key id k) v mp)
        id
        (record t { frozen = update t.frozen k (is_one v) })
insert_flag-Represents db mp id t k v r = record {
  owned = r.owned;
  balances = λ a. ground (arith, read_balance-insert_flag db mp id k a v, r.balances a);
  flags = λ a. ground (arith, read_frozen-insert_flag db mp id k a v, r.flags a);
  in_range = r.in_range;
}

abbrev pub transfer_script : Bytes → ℕ → Bytes → Script
transfer_script id n to = record {
  name = codes "transfer";
  args =
      record { typ = token_id; value = text id }
      ∷ record { typ = amount; value = num n }
      ∷ record { typ = address; value = text to }
      ∷ [];
}

abbrev pub amount_script : Bytes → Bytes → ℕ → Script
amount_script name id n = record {
  name = name;
  args = record { typ = token_id; value = text id } ∷ record { typ = amount; value = num n } ∷ [];
}

abbrev pub address_script : Bytes → Bytes → Bytes → Script
address_script name id to = record {
  name = name;
  args =
      record { typ = token_id; value = text id } ∷ record { typ = address; value = text to } ∷ [];
}

-- A transfer that the changes and the database can carry out does what the token's transfer does: it
-- is refused for a frozen sender or too small a balance, and else it takes the amount from the
-- sender's balance and adds it to the receiver's, modulo 2^64, and keeps the rest of the token.
pub deal2-Implements :
    (db : Db) (mp : Changes) (id : Bytes) (t : Token) (from : Bytes) (n : ℕ) (to : Bytes)
    → Represents db mp id t
    → Implements db id (deal2 db from mp (transfer_script id n to)) (transfer t from n to)
unfolding deal2
deal2-Implements db mp id t from n to r =
    rw (r.owned, r.flags from, r.balances from, r.balances to)
      (elim (Bool-cases (t.frozen from)) [
        | inl stopped ↦ rw stopped refl
        | inr free ↦ elim (Bool-cases (ltb (t.balance from) n)) [
          | inl short ↦ rw (free, short) refl
          | inr enough ↦
              rw (free, enough)
                (insert_balance-Represents db _ id _ to ((t.balance to + n) % 2 ^ 64)
                  (insert_balance-Represents db mp id t from (t.balance from - n) r
                    (omega (arith, r.in_range from)))
                  (omega arith))
        ]
      ])

-- A mint by the owner adds the amount to the owner's balance, modulo 2^64, and changes nothing else
-- of the token; a mint by anyone else is refused.
pub deal1-Implements :
    (db : Db) (mp : Changes) (id : Bytes) (t : Token) (who : Bytes) (n : ℕ)
    → Represents db mp id t
    → Implements db id (deal1 db who mp (amount_script (codes "mint") id n)) (mint t who n)
unfolding deal1
deal1-Implements db mp id t who n r =
    rw (r.owned, r.balances who)
      (elim (Bool-cases (bytes_eq t.owner who)) [
        | inl owner ↦ rw owner (
            insert_balance-Represents db mp id t who ((t.balance who + n) % 2 ^ 64) r (omega arith))
        | inr other ↦ rw other refl
      ])

-- Only the owner freezes or unfreezes an account, and that sets the account's flag and changes
-- nothing else of the token; for anyone else both are refused.
pub deal3-deal4-Implements :
    (db : Db) (mp : Changes) (id : Bytes) (t : Token) (who addr : Bytes)
    → Represents db mp id t
    → Implements db id
        (deal3 db who mp (address_script (codes "freeze") id addr))
        (set_frozen t who addr true)
      × Implements db id
          (deal4 db who mp (address_script (codes "unfreeze") id addr))
          (set_frozen t who addr false)
unfolding deal3 deal4 bytes_eq
deal3-deal4-Implements db mp id t who addr r =
    rw r.owned (elim (Bool-cases (bytes_eq t.owner who)) [
      | inl owner ↦ rw owner (
        insert_flag-Represents db mp id t addr (1 ∷ []) r,
        insert_flag-Represents db mp id t addr (0 ∷ []) r,
      )
      | inr other ↦ rw other (refl, refl)
    ])
