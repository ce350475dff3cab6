-- ===== src/Tests/Pool.antt =====
-- The pool's theorems at concrete inputs.
use raft_project.Common.{
  ℕ, ◌+◌, ◌-◌, ◌/◌, ◌≤◌, ◌<◌, ◌≡◌, ◌≢◌, refl, Bool, true, false, not, ◌&&◌, Option, none, some,
  List, [], ◌∷◌, ◌++◌, arith,
}
use raft_project.Common.Lists.{Bytes, codes, length}
use raft_project.Common.Dict.{Dict}
use raft_project.Common.Outcome.{ok}
use raft_project.Codec.{e64func}
use raft_project.Store.{Fetch}
use raft_project.Transaction.{Transaction, Order}
use raft_project.Chain.Accounts.{IsAddress}
use raft_project.Txpool.{Pool, heap_push, heap_pop, filter, nonce_for, verify}
use raft_project.Common.Lists.{count}
use raft_project.Txpool.Kept.{fresh, in_block, filter_lem}
use raft_project.Txpool.Accepted.{IsAuthentic, IsCovered, verify_lem, verify_accepts}
use raft_project.Tests.Store.{disk}

abbrev pub none_sold : Order
none_sold = record {
  id = [];
  address = [];
  price = 0;
  hash = [];
  ciphertext = [];
  signature = [];
  tradename = [];
  region = [];
}

-- Addresses of 32 leading ones, which decode to 32 zeros.
abbrev pub here : Bytes
here = codes "Kto11111111111111111111111111111111"

abbrev pub zeros : Bytes
zeros =
    0 ∷ 0 ∷ 0 ∷ 0 ∷ 0 ∷ 0 ∷ 0 ∷ 0 ∷ 0 ∷ 0 ∷ 0 ∷ 0 ∷ 0 ∷ 0 ∷ 0 ∷ 0 ∷ 0 ∷ 0 ∷ 0 ∷ 0 ∷ 0 ∷ 0 ∷ 0 ∷ 0
    ∷ 0 ∷ 0 ∷ 0 ∷ 0 ∷ 0 ∷ 0 ∷ 0 ∷ 0 ∷ []

abbrev pub sent : ℕ → ℕ → Transaction
sent nonce time = record {
  nonce = nonce;
  block_number = 0;
  amount = 500000;
  from = here;
  to = here;
  hash = [];
  signature = [];
  time = time;
  fee = 0;
  root = [];
  script = [];
  ord = none_sold;
  errmsg = [];
}

abbrev at_once : Transaction → Bool
at_once tx = true

abbrev never : Transaction → Bool
never tx = false

abbrev pool : Pool
pool = record { list = sent 1 5 ∷ sent 2 7 ∷ sent 3 9 ∷ sent 4 11 ∷ []; pending = [] }

filter_lem_example :
    (p : Pool) × (filter pool (sent 2 7 ∷ []) 15 ≡ ok p)
    × (count (fresh 15) p.list
        ≡ count (λ u. fresh 15 u && not (in_block (sent 2 7 ∷ []) u)) pool.list)
filter_lem_example = filter_lem pool (sent 2 7 ∷ []) 15 (fresh 15) (λ tx h. h)

abbrev funds : Dict Bytes
funds = (here, e64func 700000) ∷ []

abbrev genuine : Bytes → Bytes → Bytes → Bool
genuine key hash signature = true

verify_lem_example :
    IsAuthentic disk genuine [] (sent 1 5)
    × (nonce : ℕ) × (nonce_for disk genuine [] funds here false ≡ some (funds, nonce))
    × IsCovered disk genuine [] funds (sent 1 5) nonce
    × ((j : Bytes) → IsAddress j → disk.get funds j ≡ disk.get funds j)
unfolding verify raft_project.Common.Lists.bytes_eq raft_project.Base58.addr_to_pub
    raft_project.Store.mget raft_project.Common.Dict.lookup raft_project.Store.e_map_key e64func
    raft_project.Codec.le_decode
verify_lem_example = verify_lem disk genuine [] funds funds (sent 1 5) false refl

verify_accepts_example : verify disk genuine [] funds (sent 1 5) false ≡ (funds, ok tt)
unfolding raft_project.Txpool.key_of raft_project.Common.Lists.bytes_eq
    raft_project.Base58.addr_to_pub nonce_for raft_project.Store.mget
    raft_project.Common.Dict.lookup raft_project.Store.e_map_key e64func
    raft_project.Codec.le_decode raft_project.Txpool.or_zero
verify_accepts_example =
    verify_accepts disk genuine [] funds funds (sent 1 5) false 1 (zeros, zeros, refl, refl, refl)
      refl
      (
        700000,
        refl,
        omega arith,
        omega arith,
        omega arith,
        omega arith,
        λ scripted. absurd (scripted refl),
      )
      refl
