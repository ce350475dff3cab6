-- ===== src/Codec.antt =====
-- The byte codecs: until/miscellaneous/miscellaneous.go, and the copies of them at the end of
-- contract/parser/operate.go. `nil` and an empty slice are the same list here.
pub mod Words
pub mod Slices
use raft_project.Common.{ℕ, zero, suc, ◌+◌, ◌*◌, ◌/◌, ◌%◌, ◌^◌, Bool, [], ◌∷◌, ◌++◌, ◌||◌, arith}
use raft_project.Common.Tests.{ltb, ◌==◌, if◌then◌else◌}
use raft_project.Common.Lists.{Bytes, length, take, drop}
use raft_project.Common.Outcome.{Outcome, ok, err}

pub data LengthError : Type 0 where
  illegal_length : LengthError

-- encoding/binary's LittleEndian and BigEndian, at a width of `k` bytes.
unfoldable pub le_encode : ℕ → ℕ → Bytes
le_encode zero n = []
le_encode (suc k) n = (n % 256) ∷ le_encode k (n / 256)

unfoldable pub le_decode : Bytes → ℕ
le_decode [] = 0
le_decode (b ∷ bs) = b + 256 * le_decode bs

unfoldable pub be_encode : ℕ → ℕ → Bytes
be_encode zero n = []
be_encode (suc k) n = be_encode k (n / 256) ++ (n % 256) ∷ []

unfoldable pub be_decode_from : ℕ → Bytes → ℕ
be_decode_from acc [] = acc
be_decode_from acc (b ∷ bs) = be_decode_from (acc * 256 + b) bs

-- `if len(a) != k { return 0, err }`, then the integer.
unfoldable pub decode_at : ℕ → (Bytes → ℕ) → Bytes → Outcome LengthError ℕ
decode_at k f a = if length a == k then ok (f a) else err illegal_length

unfoldable pub e8func : ℕ → Bytes
unfolding le_encode
e8func = le_encode 1

unfoldable pub d8func : Bytes → Outcome LengthError ℕ
unfolding decode_at le_decode
d8func = decode_at 1 le_decode

unfoldable pub e16func : ℕ → Bytes
unfolding le_encode
e16func = le_encode 2

unfoldable pub d16func : Bytes → Outcome LengthError ℕ
unfolding decode_at le_decode
d16func = decode_at 2 le_decode

unfoldable pub e32func : ℕ → Bytes
unfolding le_encode
e32func = le_encode 4

unfoldable pub d32func : Bytes → Outcome LengthError ℕ
unfolding decode_at le_decode
d32func = decode_at 4 le_decode

unfoldable pub e64func : ℕ → Bytes
unfolding le_encode
e64func = le_encode 8

unfoldable pub d64func : Bytes → Outcome LengthError ℕ
unfolding decode_at le_decode
d64func = decode_at 8 le_decode

unfoldable pub eb16func : ℕ → Bytes
unfolding be_encode
eb16func = be_encode 2

unfoldable pub db16func : Bytes → Outcome LengthError ℕ
unfolding decode_at be_decode_from
db16func = decode_at 2 (be_decode_from 0)

unfoldable pub eb32func : ℕ → Bytes
unfolding be_encode
eb32func = be_encode 4

unfoldable pub db32func : Bytes → Outcome LengthError ℕ
unfolding decode_at be_decode_from
db32func = decode_at 4 (be_decode_from 0)

unfoldable pub eb64func : ℕ → Bytes
unfolding be_encode
eb64func = be_encode 8

unfoldable pub db64func : Bytes → Outcome LengthError ℕ
unfolding decode_at be_decode_from
db64func = decode_at 8 (be_decode_from 0)

-- `Eslice`: the length, cut to 32 bits, and the bytes.
unfoldable pub eslice : Bytes → Bytes
eslice a = e32func (length a % 2 ^ 32) ++ a

-- `Dslice`. `data[:4]` has four bytes once the first test has passed, so its decoding cannot fail.
unfoldable pub dslice : Bytes → Outcome LengthError (Bytes × Bytes)
dslice input =
    let n = le_decode (take 4 input) in
    let body = drop 4 input in
    if ltb (length input) 4 || ltb (length body % 2 ^ 32) n
    then err illegal_length
    else ok (take n body, drop n body)
