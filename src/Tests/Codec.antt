-- ===== src/Tests/Codec.antt =====
-- The codec theorems at concrete inputs.
use raft_project.Common.{◌+◌, ◌<◌, ◌^◌, ◌≡◌, [], ◌∷◌, ◌++◌, refl, arith}
use raft_project.Common.Lists.{codes, Bytes, length}
use raft_project.Common.Outcome.{ok}
use raft_project.Codec.{d64func, e64func, e32func, eb16func, eslice, dslice, le_decode}
use raft_project.Contract.Script.{Script, show, read, amount, token_id, text, num}
use raft_project.Contract.Script.RoundTrip.{read-show}

big_endian : eb16func 258 ≡ 1 ∷ 2 ∷ []
unfolding eb16func
big_endian = refl

abbrev stored : Bytes
stored = 1 ∷ 1 ∷ 0 ∷ 0 ∷ 0 ∷ 0 ∷ 0 ∷ 0 ∷ []

stored_value : d64func stored ≡ ok 257
unfolding d64func
stored_value = refl

abbrev framed : Bytes
framed = 1 ∷ 0 ∷ 0 ∷ 0 ∷ 9 ∷ 8 ∷ []

framed_parts : dslice framed ≡ ok (9 ∷ [], 8 ∷ [])
unfolding dslice le_decode
framed_parts = refl

abbrev minting : Script
minting = record {
  name = codes "mint";
  args =
      record { typ = token_id; value = text (codes "T") }
      ∷ record { typ = amount; value = num 7 }
      ∷ [];
}

minting_size : length (show minting) + 1 < 2 ^ 32
unfolding show eslice e32func e64func
minting_size = omega arith

read-show_example :
    read (record { name = []; args = [] }) (show minting ++ 5 ∷ []) ≡ ok (minting, 5 ∷ [])
read-show_example =
    read-show minting (record { name = []; args = [] }) (5 ∷ []) (omega arith) (omega arith)
      (omega arith) minting_size
