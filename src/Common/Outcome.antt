-- ===== src/Common/Outcome.antt =====
-- What a Go call can end in: a value, an `error`, or a run-time panic.

use mathlib.Core.Path.{◌≡◌, refl}
use mathlib.Core.Bool.{Bool, true, false}
use mathlib.Core.Option.{Option, none, some}

pub data Outcome (E : Type 0) (A : Type 0) : Type 0 where
  ok : A → Outcome E A
  err : E → Outcome E A
  panic : Outcome E A

infixl 5 ◌>>=◌ ◌>>◌
abbrev pub ◌>>=◌ : {E A B : Type 0} → Outcome E A → (A → Outcome E B) → Outcome E B
ok a >>= f = f a
err e >>= f = err e
panic >>= f = panic

abbrev pub ◌>>◌ : {E B : Type 0} → Outcome E (Unit {0}) → Outcome E B → Outcome E B
m >> k = m >>= λ _. k

-- `if cond { return err }`
abbrev pub fail_if : {E : Type 0} → Bool → E → Outcome E (Unit {0})
fail_if true e = err e
fail_if false e = ok tt

-- A use of a value that is absent: an index out of range, a nil pointer.
abbrev pub or_panic : {E A : Type 0} → Option A → Outcome E A
or_panic none = panic
or_panic (some a) = ok a

-- A check that is passed, and what comes after it.
pub passed :
    {E B : Type 0} (c : Bool) (e : E) (k : Outcome E B) (b : B)
    → (fail_if c e >> k) ≡ ok b
    → (c ≡ false) × (k ≡ ok b)
passed false e k b h = (refl, h)
passed true e k b h = cc

-- A call that must have given a value for what comes after it to give one.
pub gave :
    {E A B : Type 0} (f : A → Outcome E B) (b : B) (m : Outcome E A)
    → (m >>= f) ≡ ok b
    → (a : A) × (m ≡ ok a) × (f a ≡ ok b)
gave f b panic h = cc
gave f b (err e) h = cc
gave f b (ok a) h = (a, refl, h)

-- A chain of steps of which each may give nothing.
abbrev pub and_then : {A B : Type 0} → Option A → (A → Option B) → Option B
and_then none f = none
and_then (some a) f = f a

pub and_then-some :
    {A B : Type 0} (o : Option A) (f : A → Option B) (b : B)
    → and_then o f ≡ some b
    → (a : A) × (o ≡ some a) × (f a ≡ some b)
and_then-some none f b h = cc
and_then-some (some a) f b h = (a, refl, h)
