-- ===== src/Chain/Distr/Shares.antt =====
-- The shares of a reward add up to it, but for what the divisions cut off.
use raft_project.Common.{
  ℕ, zero, suc, ◌+◌, ◌*◌, ◌/◌, ◌%◌, ◌≤◌, ◌<◌, ◌≡◌, refl, not, ◌&&◌, Bool, false, inl, inr, some,
  List, [], ◌∷◌, ◌++◌, arith,
}
use native.Mathlib.Nat.{div-add-mod, mod-lt}
use raft_project.Common.Tests.{◌==◌, if◌then◌else◌, Bool-cases}
use raft_project.Common.Lists.{Bytes, bytes_eq, count, length}
use raft_project.Base58.{addr_to_pub}
use raft_project.Transaction.{Transaction}
use raft_project.Chain.Distr.{
  MinerTx, first_reward, heights_per_step, lowered, reward, is_signed, has_order, count_orders,
  order_shares, shares, distr, some_signed,
}

abbrev pub sum : List MinerTx → ℕ
sum [] = 0
sum (m ∷ ms) = m.amount + sum ms

sum-append : (ms ns : List MinerTx) → sum (ms ++ ns) ≡ sum ms + sum ns
sum-append [] ns = omega arith
sum-append (m ∷ ms) ns = omega (arith, sum-append ms ns)

-- What an address is paid.
abbrev pub paid : Bytes → List MinerTx → ℕ
paid a [] = 0
paid a (m ∷ ms) = (if bytes_eq m.rec_address a then m.amount else 0) + paid a ms

paid-append : (a : Bytes) (ms ns : List MinerTx) → paid a (ms ++ ns) ≡ paid a ms + paid a ns
paid-append a [] ns = omega arith
paid-append a (m ∷ ms) ns = omega (arith, paid-append a ms ns)

-- The amount, if the two addresses are the same.
abbrev pub due : Bytes → Bytes → ℕ → ℕ
due x a n = if bytes_eq x a then n else 0

lowered_bound : (x total : ℕ) → lowered x total ≤ total
unfolding lowered
lowered_bound zero total = omega arith
lowered_bound (suc x) total = omega (arith, lowered_bound x (total * 8 / 10))

reward_bound : (height : ℕ) → reward height ≤ first_reward
unfolding reward
reward_bound height = lowered_bound (height / heights_per_step) first_reward

module _ (verify : Bytes → Bytes → Bytes → Bool) where
  -- A transaction with an order whose signature is the key's.
  abbrev pub sold_by : Bytes → Transaction → Bool
  sold_by key tx = not (length tx.ord.signature == 0) && verify key tx.ord.hash tx.ord.signature

  -- And whose order is to be paid to an address.
  abbrev pub sold_to : Bytes → Bytes → Transaction → Bool
  sold_to key a tx = sold_by key tx && bytes_eq tx.ord.address a

  -- What the shop and the other two are paid of a reward, with so many orders.
  abbrev pub due_others : Bytes → Bytes → Bytes → Bytes → ℕ → ℕ → ℕ
  due_others minaddr ds cm a n whole =
      due ds a (if n == 0 then whole * 2 / 10 else whole / 10)
      + due minaddr a (whole * 4 / 10)
      + due cm a (whole * 4 / 10)

  count_orders_lem :
      (key : Bytes) (txs : List Transaction) → count_orders verify key txs ≡ count (sold_by key) txs
  unfolding count_orders has_order is_signed
  count_orders_lem key [] = refl
  count_orders_lem key (tx ∷ txs) = omega (arith, count_orders_lem key txs)

  paid-order_shares :
      (key a : Bytes) (share : ℕ) (txs : List Transaction)
      → paid a (order_shares verify key share txs) ≡ count (sold_to key a) txs * share
  unfolding order_shares has_order is_signed
  paid-order_shares key a share [] = omega arith
  paid-order_shares key a share (tx ∷ txs) = ground (arith, paid-order_shares key a share txs)

  sold_to-none :
      (key a : Bytes) (txs : List Transaction)
      → count (sold_by key) txs ≡ 0
      → count (sold_to key a) txs ≡ 0
  sold_to-none key a [] h = refl
  sold_to-none key a (tx ∷ txs) h = ground (arith, sold_to-none key a txs)

  sum-order_shares :
      (key : Bytes) (share : ℕ) (txs : List Transaction)
      → sum (order_shares verify key share txs) ≡ count_orders verify key txs * share
  unfolding order_shares count_orders
  sum-order_shares key share [] = omega arith
  sum-order_shares key share (tx ∷ txs) = ground (arith, sum-order_shares key share txs)

  module _ (txs : List Transaction) (minaddr ds cm key : Bytes) (whole : ℕ) where
    sum-shares :
        (sum (shares verify txs minaddr ds cm key whole) ≤ whole)
        × (whole
            < sum (shares verify txs minaddr ds cm key whole) + count_orders verify key txs + 5)
    unfolding shares
    sum-shares = elim (Bool-cases (count_orders verify key txs == 0)) [
      | inl unsold ↦
          let zero_orders : count_orders verify key txs ≡ 0 = ground arith in
          rw (unsold, zero_orders) (omega arith, omega arith)
      | inr sold ↦
          let n : ℕ = count_orders verify key txs in
          let some_orders : 0 < n = ground arith in
          let share : ℕ = whole / 10 / n in
          let orders = order_shares verify key share txs in
          let others : List MinerTx =
            record { amount = whole / 10; rec_address = ds }
            ∷ record { amount = whole * 4 / 10; rec_address = minaddr }
            ∷ record { amount = whole * 4 / 10; rec_address = cm }
            ∷ [] in
          let summed = sum-append orders others in
          let paid = sum-order_shares key share txs in
          let exact : n * share + whole / 10 % n ≡ whole / 10 = div-add-mod (whole / 10) n in
          let rest : whole / 10 % n < n = mod-lt (whole / 10) some_orders in
          rw (sold, summed, paid) (omega arith, omega arith)
    ]

    paid-shares :
        (a : Bytes)
        → paid a (shares verify txs minaddr ds cm key whole)
          ≡ count (sold_to key a) txs * (whole / 10 / count (sold_by key) txs)
            + due_others minaddr ds cm a (count (sold_by key) txs) whole
    unfolding shares
    paid-shares a =
        rw (count_orders_lem key txs) (elim (Bool-cases (count (sold_by key) txs == 0)) [
          | inl unsold ↦
              let no_orders : count (sold_by key) txs ≡ 0 = ground arith in
              rw (unsold, sold_to-none key a txs no_orders) (omega arith)
          | inr sold ↦
              let share : ℕ = whole / 10 / count (sold_by key) txs in
              let others : List MinerTx =
                record { amount = whole / 10; rec_address = ds }
                ∷ record { amount = whole * 4 / 10; rec_address = minaddr }
                ∷ record { amount = whole * 4 / 10; rec_address = cm }
                ∷ [] in
              rw
                (
                  sold,
                  paid-append a (order_shares verify key share txs) others,
                  paid-order_shares key a share txs,
                )
                (omega arith)
        ])

  distr_known :
      (txs : List Transaction) (minaddr ds cm qtj key : Bytes) (height : ℕ)
      → addr_to_pub qtj ≡ some key
      → length key ≡ 32
      → distr verify txs minaddr ds cm qtj height
        ≡ some (shares verify txs minaddr ds cm key (reward height))
  unfolding distr
  distr_known txs minaddr ds cm qtj key height known size =
      let unsized : (some_signed txs && not (length key == 32)) ≡ false = ground arith in
      rw (known, distr, unsized) refl

  -- If the distributor's address decodes to a key of 32 bytes, `Distr` pays an address one share
  -- for each order to be paid to it whose signature is the key's: a tenth of the reward, divided by
  -- the number of all such orders. Besides, the shop gets a tenth, or a fifth if there is no such
  -- order, and the miner and the community four tenths each. All payments together are at most the
  -- block's reward, which is at most the first reward, and what the divisions cut off is less than
  -- five and the number of those orders.
  pub distr_shares :
      (txs : List Transaction) (minaddr ds cm qtj key : Bytes) (height : ℕ)
      → addr_to_pub qtj ≡ some key
      → length key ≡ 32
      → let n = count (sold_by key) txs in
        (ms : List MinerTx) × (distr verify txs minaddr ds cm qtj height ≡ some ms)
        × ((a : Bytes)
            → paid a ms
              ≡ count (sold_to key a) txs * (reward height / 10 / n)
                + due_others minaddr ds cm a n (reward height))
        × (sum ms ≤ reward height)
        × (reward height < sum ms + n + 5)
        × (reward height ≤ first_reward)
  distr_shares txs minaddr ds cm qtj key height known size =
      let ms = shares verify txs minaddr ds cm key (reward height) in
      let (fits, near) = sum-shares txs minaddr ds cm key (reward height) in
      (
        ms,
        distr_known txs minaddr ds cm qtj key height known size,
        λ a. paid-shares txs minaddr ds cm key (reward height) a,
        fits,
        rw (← count_orders_lem key txs) near,
        reward_bound height,
      )
