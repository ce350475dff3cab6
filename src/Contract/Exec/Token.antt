-- ===== src/Contract/Exec/Token.antt =====
-- What the token operations promise, for one token: its owner, the balances and the frozen accounts.
use raft_project.Common.{ℕ, ◌+◌, ◌-◌, ◌%◌, ◌^◌, Bool}
use raft_project.Common.Tests.{ltb, if◌then◌else◌}
use raft_project.Common.Lists.{Bytes, bytes_eq}
use raft_project.Common.Outcome.{Outcome, ok, err}
use raft_project.Contract.Exec.{ExecError, permission_denied, freezed, insufficient_balance}

pub record Token : Type 0 where
  pub owner : Bytes
  pub balance : Bytes → ℕ
  pub frozen : Bytes → Bool

-- A function with one value replaced.
abbrev pub update : {A : Type 0} → (Bytes → A) → Bytes → A → Bytes → A
update f k v j = if bytes_eq k j then v else f j

-- The transfer as the code makes it: both balances are read before either is written, and the
-- receiver's is written last.
abbrev pub transfer : Token → Bytes → ℕ → Bytes → Outcome ExecError Token
transfer t from n to =
    if t.frozen from
    then err freezed
    else if ltb (t.balance from) n
    then err insufficient_balance
    else ok (record t {
      balance =
          update (update t.balance from (t.balance from - n)) to ((t.balance to + n) % 2 ^ 64);
    })

abbrev pub mint : Token → Bytes → ℕ → Outcome ExecError Token
mint t who n =
    if bytes_eq t.owner who
    then ok (record t { balance = update t.balance who ((t.balance who + n) % 2 ^ 64) })
    else err permission_denied

abbrev pub set_frozen : Token → Bytes → Bytes → Bool → Outcome ExecError Token
set_frozen t who addr flag =
    if bytes_eq t.owner who
    then ok (record t { frozen = update t.frozen addr flag })
    else err permission_denied
