-- ===== src/Merkle/PowerOfTwo.antt =====
-- Where `powerOfTwo` splits: strictly inside the range.
use Prim.Native.Nat.{bit_and, bit_and-bitwise, digits, min}
use raft_project.Common.{ℕ, zero, suc, ◌-◌, ◌/◌, ◌≤◌, ◌<◌, arith}
use raft_project.Merkle.{power_of_two0, power_of_two}

digits-le : (fuel a b : ℕ) → digits (λ b. zero) min fuel a b ≤ b
digits-le zero a b = omega arith
digits-le (suc fuel) zero b = omega arith
digits-le (suc fuel) (suc a) b = omega (arith, digits-le fuel (suc a / 2) (b / 2))

bit_and-le : (a b : ℕ) → bit_and a b ≤ b
bit_and-le a b = rw (bit_and-bitwise a b) (digits-le a a b)

power_of_two0_bounds :
    (fuel n : ℕ) → 0 < n → (0 < power_of_two0 fuel n) × (power_of_two0 fuel n ≤ n)
unfolding power_of_two0
power_of_two0_bounds zero n h = (h, omega arith)
power_of_two0_bounds (suc fuel) n h =
    ground (arith, bit_and-le n (n - 1), power_of_two0_bounds fuel (bit_and n (n - 1)))

power_of_two0_lt : (fuel n : ℕ) → 0 < bit_and n (n - 1) → 0 < fuel → power_of_two0 fuel n < n
unfolding power_of_two0
power_of_two0_lt zero n h p = absurd (omega arith)
power_of_two0_lt (suc fuel) n h p =
    ground (arith, bit_and-le n (n - 1), power_of_two0_bounds fuel (bit_and n (n - 1)))

-- A list of two or more is split into two parts that both have elements.
pub power_of_two_bounds : (n : ℕ) → 1 < n → (0 < power_of_two n) × (power_of_two n < n)
unfolding power_of_two
power_of_two_bounds n h =
    ground (arith, power_of_two0_bounds n n (omega arith), power_of_two0_lt n n)
