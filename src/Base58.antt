-- ===== src/Base58.antt =====
-- The base 58 codec of until/base58.go, and the addresses of types/address.go that are read by it.
use raft_project.Common.{ℕ, zero, suc, ◌+◌, ◌*◌, ◌/◌, ◌%◌, Option, none, some, List, [], ◌∷◌, ◌++◌}
use mathlib.Core.List.{reverse}
use raft_project.Common.Tests.{ltb, ◌==◌, if◌then◌else◌}
use raft_project.Common.Lists.{Bytes, get_elem?, length, drop}

abbrev pub b58 : List ℕ
b58 =
    255 ∷ 255 ∷ 255 ∷ 255 ∷ 255 ∷ 255 ∷ 255 ∷ 255 ∷ 255 ∷ 255 ∷ 255 ∷ 255 ∷ 255 ∷ 255 ∷ 255 ∷ 255
    ∷ 255 ∷ 255 ∷ 255 ∷ 255 ∷ 255 ∷ 255 ∷ 255 ∷ 255 ∷ 255 ∷ 255 ∷ 255 ∷ 255 ∷ 255 ∷ 255 ∷ 255 ∷ 255
    ∷ 255 ∷ 255 ∷ 255 ∷ 255 ∷ 255 ∷ 255 ∷ 255 ∷ 255 ∷ 255 ∷ 255 ∷ 255 ∷ 255 ∷ 255 ∷ 255 ∷ 255 ∷ 255
    ∷ 255 ∷ 0 ∷ 1 ∷ 2 ∷ 3 ∷ 4 ∷ 5 ∷ 6 ∷ 7 ∷ 8 ∷ 255 ∷ 255 ∷ 255 ∷ 255 ∷ 255 ∷ 255 ∷ 255 ∷ 9 ∷ 10
    ∷ 11 ∷ 12 ∷ 13 ∷ 14 ∷ 15 ∷ 16 ∷ 255 ∷ 17 ∷ 18 ∷ 19 ∷ 20 ∷ 21 ∷ 255 ∷ 22 ∷ 23 ∷ 24 ∷ 25 ∷ 26 ∷ 27
    ∷ 28 ∷ 29 ∷ 30 ∷ 31 ∷ 32 ∷ 255 ∷ 255 ∷ 255 ∷ 255 ∷ 255 ∷ 255 ∷ 33 ∷ 34 ∷ 35 ∷ 36 ∷ 37 ∷ 38 ∷ 39
    ∷ 40 ∷ 41 ∷ 42 ∷ 43 ∷ 255 ∷ 44 ∷ 45 ∷ 46 ∷ 47 ∷ 48 ∷ 49 ∷ 50 ∷ 51 ∷ 52 ∷ 53 ∷ 54 ∷ 55 ∷ 56 ∷ 57
    ∷ 255 ∷ 255 ∷ 255 ∷ 255 ∷ 255 ∷ 255 ∷ 255 ∷ 255 ∷ 255 ∷ 255 ∷ 255 ∷ 255 ∷ 255 ∷ 255 ∷ 255 ∷ 255
    ∷ 255 ∷ 255 ∷ 255 ∷ 255 ∷ 255 ∷ 255 ∷ 255 ∷ 255 ∷ 255 ∷ 255 ∷ 255 ∷ 255 ∷ 255 ∷ 255 ∷ 255 ∷ 255
    ∷ 255 ∷ 255 ∷ 255 ∷ 255 ∷ 255 ∷ 255 ∷ 255 ∷ 255 ∷ 255 ∷ 255 ∷ 255 ∷ 255 ∷ 255 ∷ 255 ∷ 255 ∷ 255
    ∷ 255 ∷ 255 ∷ 255 ∷ 255 ∷ 255 ∷ 255 ∷ 255 ∷ 255 ∷ 255 ∷ 255 ∷ 255 ∷ 255 ∷ 255 ∷ 255 ∷ 255 ∷ 255
    ∷ 255 ∷ 255 ∷ 255 ∷ 255 ∷ 255 ∷ 255 ∷ 255 ∷ 255 ∷ 255 ∷ 255 ∷ 255 ∷ 255 ∷ 255 ∷ 255 ∷ 255 ∷ 255
    ∷ 255 ∷ 255 ∷ 255 ∷ 255 ∷ 255 ∷ 255 ∷ 255 ∷ 255 ∷ 255 ∷ 255 ∷ 255 ∷ 255 ∷ 255 ∷ 255 ∷ 255 ∷ 255
    ∷ 255 ∷ 255 ∷ 255 ∷ 255 ∷ 255 ∷ 255 ∷ 255 ∷ 255 ∷ 255 ∷ 255 ∷ 255 ∷ 255 ∷ 255 ∷ 255 ∷ 255 ∷ 255
    ∷ 255 ∷ 255 ∷ 255 ∷ 255 ∷ 255 ∷ 255 ∷ 255 ∷ 255 ∷ 255 ∷ 255 ∷ 255 ∷ 255 ∷ 255 ∷ 255 ∷ 255 ∷ 255
    ∷ 255 ∷ 255 ∷ 255 ∷ 255 ∷ 255 ∷ []

-- `b58[c]`, at a byte.
unfoldable pub digit : ℕ → ℕ
digit c = elim (get_elem? b58 c) [ none ↦ 255 | some d ↦ d ]

-- The loop of `Decode`, over the text from its end; `none` for a byte outside the alphabet.
unfoldable pub decode_digits : Bytes → ℕ → ℕ → Option ℕ
unfolding digit
decode_digits [] answer j = some answer
decode_digits (c ∷ text) answer j =
    let rest = decode_digits text (answer + j * digit c) (j * 58) in
    if digit c == 255 then none else rest

-- `answer.Bytes()`: the bytes of a number, the most significant first, none for 0. A number below
-- 58^n has at most n bytes, so the length of the text is fuel enough.
unfoldable pub big_bytes : ℕ → ℕ → Bytes → Bytes
big_bytes zero n acc = acc
big_bytes (suc fuel) n acc =
    let rest = big_bytes fuel (n / 256) ((n % 256) ∷ acc) in if n == 0 then acc else rest

-- One zero byte for each leading '1'.
unfoldable pub leading_ones : Bytes → Bytes
leading_ones [] = []
leading_ones (c ∷ text) = let rest = leading_ones text in if c == b'1' then 0 ∷ rest else []

unfoldable pub decode : Bytes → Bytes
unfolding decode_digits big_bytes leading_ones
decode text = elim (decode_digits (reverse text) 0 1) [
  | none ↦ []
  | some answer ↦ leading_ones text ++ big_bytes (length text) answer []
]

-- `AddrTopub`: the address without its first three bytes, decoded; a shorter one panics.
unfoldable pub addr_to_pub : Bytes → Option Bytes
unfolding decode
addr_to_pub addr = if ltb (length addr) 3 then none else some (decode (drop 3 addr))
