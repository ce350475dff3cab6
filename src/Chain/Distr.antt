-- ===== src/Chain/Distr.antt =====
-- `Distr` of blockchain/blockchain.go: the reward of a block and its shares.
pub mod Shares
use raft_project.Common.{
  ℕ, zero, suc, ◌+◌, ◌*◌, ◌/◌, ◌%◌, ◌^◌, Bool, not, ◌&&◌, ◌||◌, true, false, Option, none, some,
  List, [], ◌∷◌, ◌++◌,
}
use raft_project.Common.Tests.{◌==◌, if◌then◌else◌}
use raft_project.Common.Lists.{Bytes, length}
use raft_project.Base58.{addr_to_pub}
use raft_project.Transaction.{Transaction, Order}

pub record MinerTx : Type 0 where
  pub amount : ℕ
  pub rec_address : Bytes

abbrev pub first_reward : ℕ
first_reward = 49460000000

abbrev pub heights_per_step : ℕ
heights_per_step = 31536000

-- The loop that lowers the reward: `total` after that many of its rounds beyond the first.
unfoldable pub lowered : ℕ → ℕ → ℕ
lowered zero total = total
lowered (suc x) total = lowered x (total * 8 / 10)

unfoldable pub reward : ℕ → ℕ
unfolding lowered
reward height = lowered (height / heights_per_step) first_reward

-- An order with a signature, which is verified.
unfoldable pub is_signed : Transaction → Bool
is_signed tx = not (length tx.ord.signature == 0)

unfoldable pub some_signed : List Transaction → Bool
unfolding is_signed
some_signed [] = false
some_signed (tx ∷ txs) = is_signed tx || some_signed txs

-- ed25519's verification is not part of the repository. It panics if the key has not 32 bytes.
module _ (verify : Bytes → Bytes → Bytes → Bool) where
  -- Whether a transaction carries an order that the key has signed.
  unfoldable pub has_order : Bytes → Transaction → Bool
  unfolding is_signed
  has_order qtj tx = is_signed tx && verify qtj tx.ord.hash tx.ord.signature

  -- `lenOrd`
  unfoldable pub count_orders : Bytes → List Transaction → ℕ
  unfolding has_order
  count_orders qtj [] = 0
  count_orders qtj (tx ∷ txs) = (if has_order qtj tx then 1 else 0) + count_orders qtj txs

  -- The shares of the orders.
  unfoldable pub order_shares : Bytes → ℕ → List Transaction → List MinerTx
  unfolding has_order
  order_shares qtj share [] = []
  order_shares qtj share (tx ∷ txs) =
      let rest = order_shares qtj share txs in
      if has_order qtj tx
      then record { amount = share; rec_address = tx.ord.address } ∷ rest
      else rest

  -- The shares of a reward.
  unfoldable pub shares : List Transaction → Bytes → Bytes → Bytes → Bytes → ℕ → List MinerTx
  shares txs minaddr ds cm key distr =
      let len_ord = count_orders key txs in
      let others =
        record { amount = distr * 4 / 10; rec_address = minaddr }
        ∷ record { amount = distr * 4 / 10; rec_address = cm }
        ∷ [] in
      if len_ord == 0
      then record { amount = distr * 2 / 10; rec_address = ds } ∷ others
      else order_shares key (distr / 10 / len_ord) txs
        ++ record { amount = distr / 10; rec_address = ds } ∷ others

  -- `Distr`; `none` is the panic of `AddrTopub` or of the verification.
  unfoldable pub distr :
      List Transaction → Bytes → Bytes → Bytes → Bytes → ℕ → Option (List MinerTx)
  distr txs minaddr ds cm qtj height = elim (addr_to_pub qtj) [
    | none ↦ none
    | some key ↦
        if some_signed txs && not (length key == 32)
        then none
        else some (shares txs minaddr ds cm key (reward height))
  ]
