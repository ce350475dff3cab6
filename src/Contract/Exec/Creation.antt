-- ===== src/Contract/Exec/Creation.antt =====
-- Creating a token, and writing the changes of an execution to the database.
use raft_project.Common.{
  ℕ, ◌≡◌, ◌≢◌, refl, ap, ◌∙◌, Bool, true, false, inl, inr, ◌||◌, none, some, [], ◌∷◌, ◌++◌, arith,
}
use raft_project.Common.Tests.{if◌then◌else◌, Bool-cases}
use raft_project.Common.Lists.{Bytes, bytes_eq, bytes_eq_iff, codes, length, length-append}
use raft_project.Common.Outcome.{ok, err}
use raft_project.Common.Dict.{lookup, insert, lookup-insert}
use raft_project.Codec.{e64func}
use raft_project.Contract.Exec.{
  Db, Changes, found, not_exist, token_exist, a_key, b_key, f_key, t_key, read_balance, read_frozen,
  stored_balance, stored_flag, deal0, flush_entries, flush, is_found, in_changes,
}
use raft_project.Contract.Exec.Token.{Token}
use raft_project.Contract.Exec.Refinement.{Represents, amount_script, uint64-e64func}

-- No key is listed twice, as in a Go map.
abbrev pub Distinct : Changes → Type 0
Distinct [] = Unit
Distinct ((k, v) ∷ mp) = (lookup k mp ≡ none) × Distinct mp

insert-Distinct : (k v : Bytes) (mp : Changes) → Distinct mp → Distinct (insert k v mp)
unfolding insert lookup
insert-Distinct k v [] d = (refl, tt)
insert-Distinct k v ((j, w) ∷ mp) d =
    ground (
      arith,
      bytes_eq_iff j k,
      bytes_eq_iff k j,
      insert-Distinct k v mp d.1,
      lookup-insert j k v mp,
    )

-- What the database gives once the changes are in it.
abbrev pub over : Changes → Db → Db
over mp db k = elim (lookup k mp) [ some v ↦ found v | none ↦ db k ]

module _ (accepts : Bytes → Bytes → Bool) (willing : (k v : Bytes) → accepts k v ≡ true) where
  flush_entries_lem :
      (mp : Changes) (db : Db)
      → Distinct mp
      → (db' : Db) × (flush_entries accepts mp db ≡ ok db') × ((k : Bytes) → db' k ≡ over mp db k)
  unfolding flush_entries lookup
  flush_entries_lem [] db d = (db, refl, λ k. refl)
  flush_entries_lem ((j, v) ∷ mp) db d =
      let step : Db = λ i. if bytes_eq j i then found v else db i in
      let (db', done, reads) = flush_entries_lem mp step d.1 in
      (db', rw (willing j v) done, λ k. ground (arith, reads k, d.0, bytes_eq_iff j k))

  flush_lem :
      (mp : Changes) (db : Db)
      → Distinct mp
      → (db' : Db) × (flush accepts true mp db ≡ ok db') × ((k : Bytes) → db' k ≡ over mp db k)
  unfolding flush
  flush_lem mp db d = let (db', done, reads) = flush_entries_lem mp db d in (db', rw done, reads)

module _ (db : Db) (mp : Changes) (db' : Db) (reads : (k : Bytes) → db' k ≡ over mp db k) where
  read_balance-over : (k : Bytes) → read_balance db' [] k ≡ read_balance db mp k
  unfolding read_balance lookup
  read_balance-over k = ground (arith, reads k)

  read_frozen-over : (k : Bytes) → read_frozen db' [] k ≡ read_frozen db mp k
  unfolding read_frozen lookup
  read_frozen-over k = ground (arith, reads k)

-- If the database takes every entry and the commit succeeds, the changes of an execution that hold a
-- token, and do not name the token's owner anew, are written so that the database alone holds that
-- token, with every balance and every flag.
pub flush-Represents :
    (accepts : Bytes → Bytes → Bool) (db : Db) (mp : Changes) (id : Bytes) (t : Token)
    → ((k v : Bytes) → accepts k v ≡ true)
    → Distinct mp
    → lookup (a_key id) mp ≡ none
    → Represents db mp id t
    → (db' : Db) × (flush accepts true mp db ≡ ok db') × Represents db' [] id t
flush-Represents accepts db mp id t willing d unnamed r =
    let (db', done, reads) = flush_lem accepts willing mp db d in
    (
      db',
      done,
      record {
        owned = ground (arith, reads (a_key id), unnamed, r.owned);
        balances = λ a. read_balance-over db mp db' reads (b_key id a) ∙ r.balances a;
        flags = λ a. read_frozen-over db mp db' reads (f_key id a) ∙ r.flags a;
        in_range = r.in_range;
      },
    )

-- A token's own key is none of its balance, total and flag keys: it is shorter.
a_key-ne : (c : ℕ) (id a : Bytes) → bytes_eq (a_key id) (c ∷ b'/' ∷ (id ++ a)) ≡ false
a_key-ne c id a = elim (Bool-cases (bytes_eq (a_key id) (c ∷ b'/' ∷ (id ++ a)))) [
  | inl same ↦
      let e = ap length ((bytes_eq_iff _ _).0 same) in absurd (omega (arith, e, length-append id a))
  | inr other ↦ other
]

-- What `deal0` writes.
abbrev created : Bytes → Bytes → ℕ → Changes → Changes
created id who n mp =
    insert (f_key id who) (0 ∷ [])
      (insert (t_key id who) (e64func n) (insert (b_key id who) (e64func 0) (insert id who mp)))

deal0-ok :
    (db : Db) (id who : Bytes) (n : ℕ)
    → db (a_key id) ≡ not_exist
    → deal0 db who [] (amount_script (codes "new") id n) ≡ ok (created id who n [])
unfolding deal0 lookup
deal0-ok db id who n unknown = rw unknown

lookup-created :
    (k id who : Bytes) (n : ℕ)
    → lookup k (created id who n []) ≡ (
        if bytes_eq (f_key id who) k
        then some (0 ∷ [])
        else if bytes_eq (t_key id who) k
        then some (e64func n)
        else if bytes_eq (b_key id who) k
        then some (e64func 0)
        else if bytes_eq id k
        then some who
        else none)
lookup-created k id who n = simp lookup-insert (unfold lookup in refl)

key-ne : (c : ℕ) (id a : Bytes) → bytes_eq (c ∷ b'/' ∷ (id ++ a)) id ≡ false
key-ne c id a = ground (
  arith,
  a_key-ne c id a,
  bytes_eq_iff id (c ∷ b'/' ∷ (id ++ a)),
  bytes_eq_iff (c ∷ b'/' ∷ (id ++ a)) id,
)

module _ (db db' : Db) (id who : Bytes) (n : ℕ)
    (reads : (k : Bytes) → db' k ≡ over (created id who n []) db k) where
  created_owner : db' (a_key id) ≡ found who
  created_owner = ground (
    arith,
    reads id,
    lookup-created id id who n,
    key-ne b'f' id who,
    key-ne b't' id who,
    key-ne b'b' id who,
    bytes_eq_iff id id,
  )

  created_balance : read_balance db' [] (b_key id who) ≡ ok 0
  unfolding read_balance stored_balance lookup bytes_eq
  created_balance = ground (
    arith,
    reads (b_key id who),
    lookup-created (b_key id who) id who n,
    bytes_eq_iff (id ++ who) (id ++ who),
    uint64-e64func 0,
  )

  created_total : db' (t_key id who) ≡ found (e64func n)
  unfolding bytes_eq
  created_total = ground (
    arith,
    reads (t_key id who),
    lookup-created (t_key id who) id who n,
    bytes_eq_iff (id ++ who) (id ++ who),
  )

  created_flag : read_frozen db' [] (f_key id who) ≡ ok false
  unfolding read_frozen stored_flag lookup bytes_eq
  created_flag = ground (
    arith,
    reads (f_key id who),
    lookup-created (f_key id who) id who n,
    bytes_eq_iff (id ++ who) (id ++ who),
  )

  created_else :
      (k : Bytes)
      → k ≢ a_key id
      → k ≢ b_key id who
      → k ≢ t_key id who
      → k ≢ f_key id who
      → db' k ≡ db k
  created_else k na nb nt nf = ground (
    arith,
    reads k,
    lookup-created k id who n,
    bytes_eq_iff (f_key id who) k,
    bytes_eq_iff (t_key id who) k,
    bytes_eq_iff (b_key id who) k,
    bytes_eq_iff id k,
  )

created-Distinct : (id who : Bytes) (n : ℕ) → Distinct (created id who n [])
created-Distinct id who n =
    insert-Distinct _ _ _
      (insert-Distinct _ _ _ (insert-Distinct _ _ _ (insert-Distinct id who [] tt)))

-- If the database has no entry under a name itself, a script that creates a token of that name
-- succeeds, and once its changes are written, the executor owns the token, with a balance of 0,
-- whatever total was announced, an entry of that total, and a flag that is not set. Every other
-- entry is what it was, those under the new token's balance and flag keys too. The database takes
-- every entry and the commit.
pub deal0_creates :
    (accepts : Bytes → Bytes → Bool) (db : Db) (id who : Bytes) (n : ℕ)
    → ((k v : Bytes) → accepts k v ≡ true)
    → db (a_key id) ≡ not_exist
    → (mp : Changes) × (db' : Db) × (deal0 db who [] (amount_script (codes "new") id n) ≡ ok mp)
      × (flush accepts true mp db ≡ ok db')
      × (db' (a_key id) ≡ found who)
      × (read_balance db' [] (b_key id who) ≡ ok 0)
      × (db' (t_key id who) ≡ found (e64func n))
      × (read_frozen db' [] (f_key id who) ≡ ok false)
      × ((k : Bytes)
          → k ≢ a_key id
          → k ≢ b_key id who
          → k ≢ t_key id who
          → k ≢ f_key id who
          → db' k ≡ db k)
deal0_creates accepts db id who n willing unknown =
    let mp = created id who n [] in
    let (db', done, reads) = flush_lem accepts willing mp db (created-Distinct id who n) in
    (
      mp,
      db',
      deal0-ok db id who n unknown,
      done,
      created_owner db db' id who n reads,
      created_balance db db' id who n reads,
      created_total db db' id who n reads,
      created_flag db db' id who n reads,
      created_else db db' id who n reads,
    )

-- A token that the database knows, or that the same script has created before, is not created again:
-- the script fails.
pub deal0_exists :
    (db : Db) (mp : Changes) (id who : Bytes) (n : ℕ)
    → (is_found (db (a_key id)) || in_changes mp (a_key id)) ≡ true
    → deal0 db who mp (amount_script (codes "new") id n) ≡ err token_exist
unfolding deal0
deal0_exists db mp id who n h = elim (Bool-cases (in_changes mp id)) [
  | inl before ↦ rw before
  | inr new ↦ rw (new, (let known : is_found (db id) ≡ true = ground arith in known))
]
