-- ===== src/Contract/Lexer/Digits.antt =====
-- Numbers in decimal, and the classes of their digits.
use raft_project.Common.{
  ℕ, zero, suc, ◌+◌, ◌-◌, ◌*◌, ◌/◌, ◌%◌, ◌^◌, ◌<◌, ◌≡◌, ◌≢◌, refl, ap, ◌∙◌, inl, inr, Bool, true,
  false, not, ◌&&◌, ◌||◌, some, [], ◌∷◌, ◌++◌, arith,
}
use raft_project.Common.Tests.{ltb, leb, ◌==◌, if◌then◌else◌, Bool-cases}
use raft_project.Common.Lists.{Bytes, All, All-append}
use raft_project.Common.Outcome.{and_then-some}
use raft_project.Contract.Lexer.{
  is_space, is_newline, is_alpha, is_digit, is_xdigit, digit_value, next_value, parse_digits,
  parse_uint,
}

all_below : ℕ → (ℕ → Bool) → Bool
all_below zero p = true
all_below (suc n) p = p n && all_below n p

all_below-true : (n : ℕ) (p : ℕ → Bool) (x : ℕ) → all_below n p ≡ true → x < n → p x ≡ true
unfolding all_below
all_below-true zero p x h lt = absurd (omega arith)
all_below-true (suc n) p x h lt = ground (arith, all_below-true n p x)

-- A digit starts a number, and goes on with one.
abbrev digit_test : ℕ → Bool
digit_test d =
    not (is_space (b'0' + d))
    && (not (is_newline (b'0' + d))
        && (not (is_alpha (b'0' + d)) && (is_digit (b'0' + d) && is_xdigit (b'0' + d))))

digit_table : all_below 10 digit_test ≡ true
unfolding all_below is_space is_newline is_alpha is_digit is_xdigit
digit_table = refl

-- A letter starts a name.
abbrev letter_test : ℕ → Bool
letter_test c = not (is_alpha c) || (not (is_space c) && not (is_newline c))

letter_table : all_below 256 letter_test ≡ true
unfolding all_below is_space is_newline is_alpha
letter_table = refl

abbrev pub IsDigit : ℕ → Type 0
IsDigit c =
    (is_space c ≡ false)
    × (is_newline c ≡ false)
    × (is_alpha c ≡ false)
    × (is_digit c ≡ true)
    × (is_xdigit c ≡ true)

digit_lem : (d : ℕ) → d < 10 → IsDigit (b'0' + d)
digit_lem d h = ground (arith, all_below-true 10 digit_test d digit_table h)

pub letter_lem :
    (c : ℕ) → c < 256 → is_alpha c ≡ true → (is_space c ≡ false) × (is_newline c ≡ false)
letter_lem c h a = ground (arith, all_below-true 256 letter_test c letter_table h)

-- A number in decimal; it has fewer digits than it counts.
pub decimal_digits : ℕ → ℕ → Bytes
decimal_digits zero n = []
decimal_digits (suc fuel) n =
    let more = decimal_digits fuel (n / 10) ++ (b'0' + n % 10) ∷ [] in
    if ltb n 10 then (b'0' + n) ∷ [] else more

unfoldable pub decimal : ℕ → Bytes
unfolding decimal_digits
decimal n = decimal_digits (suc n) n

digit_value-digit : (d : ℕ) → d < 10 → digit_value (b'0' + d) ≡ some d
unfolding digit_value
digit_value-digit d h =
    let value : b'0' + d - b'0' ≡ d = omega arith in
    let in_range : (leb b'0' (b'0' + d) && leb (b'0' + d) b'9') ≡ true = ground arith in
    rw (in_range, value) refl

next_value-digit :
    (m d : ℕ) → d < 10 → m * 10 + d < 2 ^ 64 → next_value 10 m (b'0' + d) ≡ some (m * 10 + d)
unfolding next_value
next_value-digit m d h small =
    let fits : (ltb d 10 && ltb (m * 10 + d) (2 ^ 64)) ≡ true = ground arith in
    rw (digit_value-digit d h, fits) refl

parse_digits-snoc :
    (a m d : ℕ) (xs : Bytes)
    → d < 10
    → m * 10 + d < 2 ^ 64
    → parse_digits 10 a xs ≡ some m
    → parse_digits 10 a (xs ++ (b'0' + d) ∷ []) ≡ some (m * 10 + d)
unfolding parse_digits
parse_digits-snoc a m d [] h small e =
    let same : a ≡ m = cc in rw (same, next_value-digit m d h small) refl
parse_digits-snoc a m d (c ∷ xs) h small e =
    let (n, first, rest) = and_then-some (next_value 10 a c) (λ n. parse_digits 10 n xs) m e in
    rw first (parse_digits-snoc n m d xs h small rest)

-- The digits are read back as the number, and all are digits; the first is 0 for 0 only.
decimal_digits_lem :
    (fuel n : ℕ)
    → n < fuel
    → n < 2 ^ 64
    → (parse_digits 10 0 (decimal_digits fuel n) ≡ some n) × All IsDigit (decimal_digits fuel n)
unfolding decimal_digits parse_digits
decimal_digits_lem zero n h small = absurd (omega arith)
decimal_digits_lem (suc fuel) n h small = elim (Bool-cases (ltb n 10)) [
  | inl one ↦
      let below : n < 10 = ground arith in
      rw one (
        parse_digits-snoc 0 0 n [] below (omega arith) refl ∙ ap some (omega arith),
        (digit_lem n below, tt),
      )
  | inr more ↦
      let (read, digits) = decimal_digits_lem fuel (n / 10) (ground arith) (omega arith) in
      let split : n / 10 * 10 + n % 10 ≡ n = omega arith in
      let whole =
        parse_digits-snoc 0 (n / 10) (n % 10) (decimal_digits fuel (n / 10)) (omega arith)
          (omega arith) read in
      rw more (
        whole ∙ ap some split,
        All-append IsDigit (decimal_digits fuel (n / 10)) ((b'0' + n % 10) ∷ []) digits
            (digit_lem (n % 10) (omega arith), tt),
      )
]

abbrev LeadsOff : Bytes → Type 0
LeadsOff [] = ⊥
LeadsOff (c ∷ cs) = c ≢ b'0'

LeadsOff-append : (xs ys : Bytes) → LeadsOff xs → LeadsOff (xs ++ ys)
LeadsOff-append [] ys h = absurd h
LeadsOff-append (x ∷ xs) ys h = h

decimal_digits-LeadsOff : (fuel n : ℕ) → n < fuel → 0 < n → LeadsOff (decimal_digits fuel n)
unfolding decimal_digits
decimal_digits-LeadsOff zero n h pos = absurd (omega arith)
decimal_digits-LeadsOff (suc fuel) n h pos = elim (Bool-cases (ltb n 10)) [
  | inl one ↦ rw one (λ e. omega arith)
  | inr more ↦ rw more (
      LeadsOff-append (decimal_digits fuel (n / 10)) ((b'0' + n % 10) ∷ [])
        (decimal_digits-LeadsOff fuel (n / 10) (ground arith) (ground arith)))
]

-- What the lexer needs of a number's text.
abbrev pub IsNumeral : ℕ → Bytes → Type 0
IsNumeral n [] = ⊥
IsNumeral n (c ∷ cs) =
    IsDigit c × All IsDigit cs × (parse_uint (c ∷ cs) ≡ some n) × ((cs ≢ []) → c ≢ b'0')

numeral :
    (n : ℕ) (ds : Bytes)
    → All IsDigit ds
    → LeadsOff ds
    → parse_digits 10 0 ds ≡ some n
    → IsNumeral n ds
unfolding parse_uint
numeral n [] digits first read = absurd first
numeral n (c ∷ cs) digits first read =
    let off : (c == b'0') ≡ false = ground arith in (digits.0, digits.1, rw off read, λ _. first)

pub decimal-IsNumeral : (n : ℕ) → n < 2 ^ 64 → IsNumeral n (decimal n)
unfolding decimal decimal_digits parse_uint parse_digits
decimal-IsNumeral zero h = (digit_lem 0 (omega arith), tt, refl, λ long. absurd (long refl))
decimal-IsNumeral (suc m) h =
    let (read, digits) = decimal_digits_lem (suc (suc m)) (suc m) (omega arith) h in
    numeral (suc m) (decimal_digits (suc (suc m)) (suc m)) digits
      (decimal_digits-LeadsOff (suc (suc m)) (suc m) (omega arith) (omega arith)) read
