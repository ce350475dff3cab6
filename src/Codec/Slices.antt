-- ===== src/Codec/Slices.antt =====
-- The length-prefixed slices.
use raft_project.Common.{◌+◌, ◌≡◌, ◌≤◌, ◌<◌, ◌%◌, ◌^◌, ◌++◌, append_assoc, sym, arith}
use raft_project.Common.Lists.{
  Bytes, length, take, drop, length-append, take_at, drop_at, take-append-drop, length-take, All,
  All-take, IsByte,
}
use raft_project.Common.Outcome.{ok}
use raft_project.Codec.{le_encode, le_decode, e32func, eslice, dslice}
use raft_project.Codec.Words.{
  length-le_encode, le_decode-le_encode4, le_decode_bound, le_encode-le_decode,
}

pub length-eslice : (a : Bytes) → length (eslice a) ≡ length a + 4
unfolding eslice e32func
length-eslice a = omega (
  arith,
  length-append (le_encode 4 (length a % 2 ^ 32)) a,
  length-le_encode 4 (length a % 2 ^ 32),
)

-- A slice that is written with its length and followed by anything is read back as itself, with
-- what follows left over, as long as the slice and what follows are shorter than 2^32 bytes.
pub dslice-eslice :
    (a rest : Bytes) → length a + length rest < 2 ^ 32 → dslice (eslice a ++ rest) ≡ ok (a, rest)
unfolding dslice eslice e32func
dslice-eslice a rest h = ground (
  arith,
  length-append a rest,
  le_decode-le_encode4 (length a % 2 ^ 32),
  take_at {n = length a} a rest,
  drop_at {n = length a} a rest,
)

-- The first four bytes are the number that they spell, written again.
head_bytes :
    (input : Bytes)
    → All IsByte input
    → 4 ≤ length input
    → (e32func (le_decode (take 4 input)) ≡ take 4 input) × (le_decode (take 4 input) < 2 ^ 32)
unfolding e32func
head_bytes input valid h =
    let len : length (take 4 input) ≡ 4 = length-take 4 input h in
    let same = le_encode-le_decode (take 4 input) (All-take IsByte 4 input valid) in
    let below = le_decode_bound (take 4 input) (All-take IsByte 4 input valid) in
    (rw len at same, rw len at below)

dslice-eq-ok :
    (input : Bytes) {a rest : Bytes}
    → dslice input ≡ ok (a, rest)
    → let n = le_decode (take 4 input) in
      let body = drop 4 input in
      (4 ≤ length input) × (n ≤ length body) × (take n body ≡ a) × (drop n body ≡ rest)
unfolding dslice
dslice-eq-ok input h = ground arith

-- What is read as a slice and a rest is, byte for byte, that slice with its length followed by that
-- rest.
pub eslice-dslice :
    (input : Bytes) {a rest : Bytes}
    → All IsByte input
    → dslice input ≡ ok (a, rest)
    → input ≡ eslice a ++ rest
unfolding dslice eslice
eslice-dslice input {a} {rest} valid h =
    let n = le_decode (take 4 input) in
    let body = drop 4 input in
    let (long, fits, front, back) = dslice-eq-ok input h in
    let (same, below) = head_bytes input valid long in
    let size : length a % 2 ^ 32 ≡ n = rw (← front) (omega (arith, length-take n body fits)) in
    rw (size, same, append_assoc, ← front, ← back, take-append-drop n body)
      (sym (take-append-drop 4 input))
