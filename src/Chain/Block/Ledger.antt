-- ===== src/Chain/Block/Ledger.antt =====
-- The ledger that a block is meant to be applied to: balances by address, and nothing else.
use raft_project.Common.{ℕ, ◌≡◌, ◌⊎◌, false, List, [], ◌∷◌}
use raft_project.Common.Tests.{◌==◌, if◌then◌else◌}
use raft_project.Common.Lists.{Bytes, bytes_eq, length}
use raft_project.Transaction.{Transaction}
use raft_project.Chain.{add_u64}
use raft_project.Chain.Accounts.{charged}
use raft_project.Chain.Distr.{MinerTx}

abbrev pub Ledger : Type 0
Ledger = Bytes → ℕ

abbrev pub credit : Bytes → ℕ → Ledger → Ledger
credit a n f j = if bytes_eq a j then add_u64 (f a) n else f j

-- The receiver gets the amount, and the sender, if it is another, pays the amount and the fee.
abbrev pub move : Transaction → Ledger → Ledger
move tx f j =
    if bytes_eq tx.to j
    then add_u64 (f tx.to) tx.amount
    else if bytes_eq tx.from j
    then charged (f tx.from) tx.amount tx.fee
    else f j

-- The fee of a transaction with a script goes to the miner first.
abbrev pub settle : Bytes → Transaction → Ledger → Ledger
settle miner tx f = if length tx.script == 0 then move tx f else move tx (credit miner tx.fee f)

unfoldable pub settle_all : Bytes → List Transaction → Ledger → Ledger
settle_all miner [] f = f
settle_all miner (tx ∷ txs) f = settle_all miner txs (settle miner tx f)

unfoldable pub credit_all : List MinerTx → Ledger → Ledger
credit_all [] f = f
credit_all (m ∷ ms) f = credit_all ms (credit m.rec_address m.amount f)

-- Whether a transaction, or some of a list, has a script.
abbrev pub IsScripted : Transaction → Type 0
IsScripted tx = (length tx.script == 0) ≡ false

abbrev pub HasScript : List Transaction → Type 0
HasScript [] = ⊥
HasScript (tx ∷ txs) = IsScripted tx ⊎ HasScript txs
