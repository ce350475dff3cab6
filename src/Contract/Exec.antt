-- ===== src/Contract/Exec.antt =====
-- contract/exec/exec.go: the token operations over a read-only database and the map of changes.
pub mod Token
pub mod Refinement
pub mod Batch
pub mod Creation
pub mod Faults
pub mod Root
use raft_project.Common.{
  ℕ, zero, suc, ◌+◌, ◌-◌, ◌%◌, ◌^◌, Bool, true, false, Option, none, some, List, [], ◌∷◌, ◌++◌,
}
use raft_project.Common.Tests.{ltb, ◌==◌, if◌then◌else◌}
use raft_project.Common.Lists.{Bytes, codes, bytes_eq, length, take, get_elem?}
use raft_project.Common.Outcome.{Outcome, ok, err, panic, ◌>>=◌, ◌>>◌, fail_if, or_panic}
use raft_project.Common.Dict.{Dict, lookup, insert}
use raft_project.Codec.{le_decode, e64func}
pub use raft_project.Store.{Fetch, found, not_exist, failed}
use raft_project.Contract.Script.{Value, num, text, absent, ScriptArgument, Script}

abbrev pub Db : Type 0
Db = Bytes → Fetch

-- The map of changes, `mp`.
abbrev pub Changes : Type 0
Changes = Dict Bytes

pub data ExecError : Type 0 where
  token_exist permission_denied freezed insufficient_balance no_entry db_error : ExecError

abbrev pub a_key : Bytes → Bytes
a_key id = id

abbrev pub b_key : Bytes → Bytes → Bytes
b_key id addr = b'b' ∷ b'/' ∷ (id ++ addr)

abbrev pub f_key : Bytes → Bytes → Bytes
f_key id addr = b'f' ∷ b'/' ∷ (id ++ addr)

abbrev pub t_key : Bytes → Bytes → Bytes
t_key id addr = b't' ∷ b'/' ∷ (id ++ addr)

-- `binary.LittleEndian.Uint64`, which panics below eight bytes.
unfoldable pub uint64 : Bytes → Outcome ExecError ℕ
uint64 v = if ltb (length v) 8 then panic else ok (le_decode (take 8 v))

-- `s, _ := sc.Arguments()[i].Value().(string)`
unfoldable pub text_of : Value → Bytes
text_of (text s) = s
text_of (num n) = []
text_of absent = []

-- `n, _ := sc.Arguments()[i].Value().(uint64)`
unfoldable pub number_of : Value → ℕ
number_of (num n) = n
number_of (text s) = 0
number_of absent = 0

unfoldable pub text_argument : Script → ℕ → Outcome ExecError Bytes
unfolding text_of
text_argument sc i = or_panic (get_elem? sc.args i) >>= λ a. ok (text_of a.value)

unfoldable pub number_argument : Script → ℕ → Outcome ExecError ℕ
unfolding number_of
number_argument sc i = or_panic (get_elem? sc.args i) >>= λ a. ok (number_of a.value)

-- The balance that `deal1` and `deal2` read: from the changes, else from the database, else 0.
unfoldable pub stored_balance : Fetch → Outcome ExecError ℕ
unfolding uint64
stored_balance (found w) = uint64 w
stored_balance not_exist = ok 0
stored_balance failed = err db_error

unfoldable pub read_balance : Db → Changes → Bytes → Outcome ExecError ℕ
unfolding uint64 stored_balance
read_balance db mp k = elim (lookup k mp) [ some v ↦ uint64 v | none ↦ stored_balance (db k) ]

abbrev pub is_one : Bytes → Bool
is_one v = bytes_eq v (1 ∷ [])

-- Whether `deal2` finds an account frozen.
unfoldable pub stored_flag : Fetch → Outcome ExecError Bool
stored_flag (found w) = ok (is_one w)
stored_flag not_exist = ok false
stored_flag failed = err db_error

unfoldable pub read_frozen : Db → Changes → Bytes → Outcome ExecError Bool
unfolding stored_flag
read_frozen db mp k = elim (lookup k mp) [ some v ↦ ok (is_one v) | none ↦ stored_flag (db k) ]

-- `db.Get` where every error is passed on.
unfoldable pub fetched : Fetch → Outcome ExecError Bytes
fetched (found v) = ok v
fetched not_exist = err no_entry
fetched failed = err db_error

-- The test of `deal1`, `deal3` and `deal4` that the executor owns the token.
unfoldable pub check_owner : Db → Bytes → Bytes → Outcome ExecError (Unit {0})
unfolding fetched
check_owner db id executor = do
  v ← fetched (db (a_key id))
  if bytes_eq v executor then ok tt else err permission_denied

unfoldable pub in_changes : Changes → Bytes → Bool
in_changes mp k = elim (lookup k mp) [ some v ↦ true | none ↦ false ]

unfoldable pub is_found : Fetch → Bool
is_found (found v) = true
is_found not_exist = false
is_found failed = false

-- new tokenId total_amount
unfoldable pub deal0 : Db → Bytes → Changes → Script → Outcome ExecError Changes
unfolding text_argument number_argument in_changes is_found
deal0 db executor mp sc = do
  arg0 ← text_argument sc 0
  arg1 ← number_argument sc 1
  fail_if (in_changes mp (a_key arg0)) token_exist
  fail_if (is_found (db (a_key arg0))) token_exist
  let mp = insert arg0 executor mp
  let mp = insert (b_key arg0 executor) (e64func 0) mp
  let mp = insert (t_key arg0 executor) (e64func arg1) mp
  ok (insert (f_key arg0 executor) (0 ∷ []) mp)

-- mint tokenId amount
unfoldable pub deal1 : Db → Bytes → Changes → Script → Outcome ExecError Changes
unfolding text_argument number_argument check_owner read_balance
deal1 db executor mp sc = do
  arg0 ← text_argument sc 0
  arg1 ← number_argument sc 1
  check_owner db arg0 executor
  b ← read_balance db mp (b_key arg0 executor)
  ok (insert (b_key arg0 executor) (e64func ((b + arg1) % 2 ^ 64)) mp)

-- transfer tokenId amount address
unfoldable pub deal2 : Db → Bytes → Changes → Script → Outcome ExecError Changes
unfolding text_argument number_argument fetched read_frozen read_balance
deal2 db executor mp sc = do
  arg0 ← text_argument sc 0
  arg1 ← number_argument sc 1
  arg2 ← text_argument sc 2
  owner ← fetched (db (a_key arg0))
  frozen ← read_frozen db mp (f_key arg0 executor)
  fail_if frozen freezed
  from ← read_balance db mp (b_key arg0 executor)
  fail_if (ltb from arg1) insufficient_balance
  to ← read_balance db mp (b_key arg0 arg2)
  let mp = insert (b_key arg0 executor) (e64func (from - arg1)) mp
  ok (insert (b_key arg0 arg2) (e64func ((to + arg1) % 2 ^ 64)) mp)

-- freeze tokenId address
unfoldable pub deal3 : Db → Bytes → Changes → Script → Outcome ExecError Changes
unfolding text_argument check_owner
deal3 db executor mp sc = do
  arg0 ← text_argument sc 0
  arg1 ← text_argument sc 1
  check_owner db arg0 executor
  ok (insert (f_key arg0 arg1) (1 ∷ []) mp)

-- unfreeze tokenId address
unfoldable pub deal4 : Db → Bytes → Changes → Script → Outcome ExecError Changes
unfolding text_argument check_owner
deal4 db executor mp sc = do
  arg0 ← text_argument sc 0
  arg1 ← text_argument sc 1
  check_owner db arg0 executor
  ok (insert (f_key arg0 arg1) (0 ∷ []) mp)

-- `dealRegistry`; calling the nil function of an unknown name panics.
unfoldable pub deal : Bytes → Db → Bytes → Changes → Script → Outcome ExecError Changes
unfolding deal0 deal1 deal2 deal3 deal4
deal name db executor mp sc =
    if bytes_eq name (codes "new")
    then deal0 db executor mp sc
    else if bytes_eq name (codes "mint")
    then deal1 db executor mp sc
    else if bytes_eq name (codes "transfer")
    then deal2 db executor mp sc
    else if bytes_eq name (codes "freeze")
    then deal3 db executor mp sc
    else if bytes_eq name (codes "unfreeze")
    then deal4 db executor mp sc
    else panic

-- The loop of `New`. A nil script panics at `scs[i].Name()`.
unfoldable pub run : Db → Bytes → Changes → List (Option Script) → Outcome ExecError Changes
unfolding deal
run db owner mp [] = ok mp
run db owner mp (none ∷ scs) = panic
run db owner mp (some sc ∷ scs) = deal sc.name db owner mp sc >>= λ mp'. run db owner mp' scs

-- `New`: the changes of an execution.
unfoldable pub new : Db → List (Option Script) → Bytes → Outcome ExecError Changes
unfolding run
new db scs owner = run db owner [] scs

-- `Balance`
unfoldable pub balance : Db → Bytes → Bytes → Outcome ExecError ℕ
unfolding fetched uint64
balance db id addr = fetched (db (b_key id addr)) >>= uint64

-- The loop of `(*exec).Flush` over the changes, inside a transaction on the database; badger says of
-- each entry whether it takes it.
flush_entries : (Bytes → Bytes → Bool) → Changes → Db → Outcome ExecError Db
flush_entries accepts [] db = ok db
flush_entries accepts ((k, v) ∷ mp) db =
    let rest = flush_entries accepts mp (λ j. if bytes_eq k j then found v else db j) in
    if accepts k v then rest else err db_error

-- `(*exec).Flush`: the database after it, if every entry is taken and the commit succeeds. Otherwise
-- the transaction is discarded.
unfoldable pub flush : (Bytes → Bytes → Bool) → Bool → Changes → Db → Outcome ExecError Db
unfolding flush_entries
flush accepts commits mp db = do
  written ← flush_entries accepts mp db
  if commits then ok written else err db_error
