-- ===== src/Tests/Pending.antt =====
-- The theorems on `Pendings` at concrete inputs.
use raft_project.Common.{ℕ, ◌+◌, ◌≤◌, ◌≡◌, refl, [], ◌∷◌, arith, false}
use raft_project.Common.Lists.{Bytes, codes}
use raft_project.Common.Outcome.{ok}
use raft_project.Common.Dict.{Dict}
use raft_project.Codec.{e64func}
use raft_project.Store.{Fetch, not_exist}
use raft_project.Contract.Exec.{Db}
use raft_project.Txpool.Pendings.{Pending, pendings, available}
use raft_project.Txpool.Pendings.Loop.{Gives}
use raft_project.Txpool.Pendings.Loop.Ends.{pendings_returns}
use raft_project.Txpool.Pendings.Loop.Solvent.{amount_of, pendings_solvent}
use raft_project.Tests.Store.{disk}
use raft_project.Tests.Pool.{here, sent}

-- What an account has, for two transactions of which it covers one.
abbrev chain : Dict Bytes
unfolding e64func
chain = (here, e64func 700000) ∷ []

abbrev start : Pending disk
start = record {
  list = sent 1 5 ∷ sent 2 7 ∷ [];
  queue = [];
  pending = [];
  item = [];
  balance = [];
  chain = chain;
}

abbrev no_tokens : Db
no_tokens k = not_exist

abbrev same_hash : Bytes → Bytes
same_hash x = x

pendings_solvent_example :
    Gives Unit
      (pendings disk same_hash no_tokens false 9 start)
      (λ p'. amount_of here p'.pending ≤ available disk same_hash no_tokens chain here + 0)
unfolding available raft_project.Txpool.or_zero raft_project.Txpool.fetched_word
    raft_project.Common.Dict.lookup chain raft_project.Common.Lists.bytes_eq
    raft_project.Codec.le_decode raft_project.Store.mget raft_project.Store.e_map_key
pendings_solvent_example =
    pendings_solvent disk same_hash no_tokens here false 9 start refl refl (omega arith) refl

pendings_returns_example :
    (p' : Pending disk) × (pendings disk same_hash no_tokens false 9 start ≡ ok p')
    × (p'.balance ≡ [])
pendings_returns_example = pendings_returns disk same_hash no_tokens false 9 start refl
