-- ===== src/Contract/Exec/Root.antt =====
-- `(*exec).Root`: the Merkle hash of the changes, in the order of their keys.
use raft_project.Common.{Bool, true, false, ◌||◌, ◌&&◌, Option, none, some, List, [], ◌∷◌}
use raft_project.Common.Tests.{ltb, ◌==◌, if◌then◌else◌}
use raft_project.Common.Lists.{Bytes}
use raft_project.Common.Outcome.{Outcome, ◌>>=◌}
use raft_project.Common.Dict.{lookup}
use raft_project.Merkle as Merkle
use raft_project.Contract.Exec.{Changes}

-- `<` on strings.
unfoldable pub bytes_ltb : Bytes → Bytes → Bool
bytes_ltb xs [] = false
bytes_ltb [] (y ∷ ys) = true
bytes_ltb (x ∷ xs) (y ∷ ys) = ltb x y || (x == y && bytes_ltb xs ys)

-- `sort.Strings`, which leaves the keys, all different, in the one order that they have.
unfoldable pub insert_key : Bytes → List Bytes → List Bytes
insert_key k [] = k ∷ []
insert_key k (j ∷ js) = let rest = insert_key k js in if bytes_ltb k j then k ∷ j ∷ js else j ∷ rest

unfoldable pub sorted_keys : Changes → List Bytes
sorted_keys [] = []
sorted_keys ((k, v) ∷ mp) = insert_key k (sorted_keys mp)

-- `e.mp[k]`
abbrev pub or_empty : Option Bytes → Bytes
or_empty none = []
or_empty (some v) = v

unfoldable pub entries : Changes → List Bytes → List Bytes
entries mp [] = []
entries mp (k ∷ ks) = k ∷ or_empty (lookup k mp) ∷ entries mp ks

-- SHA-3 is not part of the repository.
unfoldable pub root : (Bytes → Bytes) → Changes → Outcome Bytes Bytes
root h mp = Merkle.new h (entries mp (sorted_keys mp)) >>= Merkle.get_mt_hash h
