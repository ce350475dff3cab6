-- ===== src/Common/Lists.antt =====
-- Lists measured and cut by native numbers, and byte strings.
use Prim.Native.Nat.{ℕ, zero, suc, ◌+◌, ◌-◌, ◌≤◌, ◌<◌}
use Prim.Native.Char.{code}
use Prim.Native.String.{String}
use mathlib.Core.Path.{◌≡◌, refl, ap}
use mathlib.Core.Logic.{◌↔◌, ◌≢◌}
use mathlib.Core.Bool.{Bool, true, false, ◌&&◌}
use mathlib.Core.List.{List, [], ◌∷◌, ◌++◌}
use mathlib.Core.Option.{Option, none, some}
use native.Mathlib.Omega.{arith}
use raft_project.Common.Tests.{◌==◌, if◌then◌else◌}

module _ {ℓ} {A : Type ℓ} where
  abbrev pub length : List A → ℕ
  length [] = 0
  length (x ∷ xs) = suc (length xs)

  abbrev pub get_elem? : List A → ℕ → Option A
  get_elem? [] i = none
  get_elem? (x ∷ xs) zero = some x
  get_elem? (x ∷ xs) (suc i) = get_elem? xs i

  abbrev pub take : ℕ → List A → List A
  take zero xs = []
  take (suc n) [] = []
  take (suc n) (x ∷ xs) = x ∷ take n xs

  abbrev pub drop : ℕ → List A → List A
  drop zero xs = xs
  drop (suc n) [] = []
  drop (suc n) (x ∷ xs) = drop n xs

  pub get_elem?-in_range :
      (xs : List A) (i : ℕ) → i < length xs → (a : A) × (get_elem? xs i ≡ some a)
  get_elem?-in_range [] i h = absurd (omega arith)
  get_elem?-in_range (x ∷ xs) zero h = (x, refl)
  get_elem?-in_range (x ∷ xs) (suc i) h = get_elem?-in_range xs i (omega arith)

  pub length-append : (xs ys : List A) → length (xs ++ ys) ≡ length xs + length ys
  length-append [] ys = omega arith
  length-append (x ∷ xs) ys = omega (arith, length-append xs ys)

  pub take-length-append : (xs ys : List A) → take (length xs) (xs ++ ys) ≡ xs
  take-length-append [] ys = refl
  take-length-append (x ∷ xs) ys = ap (λ t. x ∷ t) (take-length-append xs ys)

  pub drop-length-append : (xs ys : List A) → drop (length xs) (xs ++ ys) ≡ ys
  drop-length-append [] ys = refl
  drop-length-append (x ∷ xs) ys = drop-length-append xs ys

  pub take-all : (n : ℕ) (xs : List A) → length xs ≤ n → take n xs ≡ xs
  take-all zero [] h = refl
  take-all zero (x ∷ xs) h = absurd (omega arith)
  take-all (suc n) [] h = refl
  take-all (suc n) (x ∷ xs) h = ap (λ t. x ∷ t) (take-all n xs (omega arith))

  pub drop-all : (n : ℕ) (xs : List A) → length xs ≤ n → drop n xs ≡ []
  drop-all zero [] h = refl
  drop-all zero (x ∷ xs) h = absurd (omega arith)
  drop-all (suc n) [] h = refl
  drop-all (suc n) (x ∷ xs) h = drop-all n xs (omega arith)

  pub take_at : {n : ℕ} (xs ys : List A) → length xs ≡ n → take n (xs ++ ys) ≡ xs
  take_at xs ys e = rw (← e) (take-length-append xs ys)

  pub drop_at : {n : ℕ} (xs ys : List A) → length xs ≡ n → drop n (xs ++ ys) ≡ ys
  drop_at xs ys e = rw (← e) (drop-length-append xs ys)

  pub length-take : (n : ℕ) (xs : List A) → n ≤ length xs → length (take n xs) ≡ n
  length-take zero xs h = refl
  length-take (suc n) [] h = absurd (omega arith)
  length-take (suc n) (x ∷ xs) h = omega (arith, length-take n xs (omega arith))

  pub length-drop : (n : ℕ) (xs : List A) → length (drop n xs) ≡ length xs - n
  length-drop zero xs = omega arith
  length-drop (suc n) [] = omega arith
  length-drop (suc n) (x ∷ xs) = omega (arith, length-drop n xs)

  pub take-append-drop : (n : ℕ) (xs : List A) → take n xs ++ drop n xs ≡ xs
  take-append-drop zero xs = refl
  take-append-drop (suc n) [] = refl
  take-append-drop (suc n) (x ∷ xs) = ap (λ t. x ∷ t) (take-append-drop n xs)

-- How many elements pass a test.
abbrev pub count {ℓ} : {A : Type ℓ} → (A → Bool) → List A → ℕ
count f [] = 0
count f (x ∷ xs) = (if f x then 1 else 0) + count f xs

-- A predicate on every element.
abbrev pub All {ℓ κ} : {A : Type ℓ} → (A → Type κ) → List A → Type κ
All P [] = Unit
All P (x ∷ xs) = P x × All P xs

pub All-append {ℓ κ} :
    {A : Type ℓ} (P : A → Type κ) (xs ys : List A) → All P xs → All P ys → All P (xs ++ ys)
All-append P [] ys hx hy = hy
All-append P (x ∷ xs) ys hx hy = (hx.0, All-append P xs ys hx.1 hy)

pub All-take {ℓ κ} :
    {A : Type ℓ} (P : A → Type κ) (n : ℕ) (xs : List A) → All P xs → All P (take n xs)
All-take P zero xs h = tt
All-take P (suc n) [] h = tt
All-take P (suc n) (x ∷ xs) h = (h.0, All-take P n xs h.1)

-- A `[]byte` or `string`: a list of numbers, each below 256 where a theorem needs it.
abbrev pub Bytes : Type 0
Bytes = List ℕ

abbrev pub IsByte : ℕ → Type 0
IsByte b = b < 256

-- The bytes of an ASCII literal.
abbrev pub codes : String → Bytes
codes String.[] = []
codes (String.◌∷◌ c s) = code c ∷ codes s

-- `==` on strings, `bytes.Compare(a, b) == 0` on slices.
unfoldable pub bytes_eq : Bytes → Bytes → Bool
bytes_eq [] [] = true
bytes_eq [] (y ∷ ys) = false
bytes_eq (x ∷ xs) [] = false
bytes_eq (x ∷ xs) (y ∷ ys) = x == y && bytes_eq xs ys

bytes_eq→eq : (xs ys : Bytes) → bytes_eq xs ys ≡ true → xs ≡ ys
unfolding bytes_eq
bytes_eq→eq [] [] h = refl
bytes_eq→eq [] (y ∷ ys) h = cc
bytes_eq→eq (x ∷ xs) [] h = cc
bytes_eq→eq (x ∷ xs) (y ∷ ys) h = ground (arith, bytes_eq→eq xs ys)

pub bytes_eq_refl : (xs : Bytes) → bytes_eq xs xs ≡ true
unfolding bytes_eq
bytes_eq_refl [] = refl
bytes_eq_refl (x ∷ xs) = ground (arith, bytes_eq_refl xs)

pub bytes_eq_iff : (xs ys : Bytes) → (bytes_eq xs ys ≡ true) ↔ (xs ≡ ys)
bytes_eq_iff xs ys = (bytes_eq→eq xs ys, λ e. rw (← e) (bytes_eq_refl xs))

pub bytes_eq-false→ne : (xs ys : Bytes) → bytes_eq xs ys ≡ false → xs ≢ ys
bytes_eq-false→ne xs ys h = ground (arith, bytes_eq_iff xs ys)
