-- ===== src/Tests/Lists.antt =====
-- The theorems on lists and sets of the store at concrete inputs.
use raft_project.Common.{◌≡◌, refl, ap, inr, Option, some, List, [], ◌∷◌, ◌++◌, arith}
use raft_project.Common.Lists.{Bytes, bytes_eq, codes}
use raft_project.Common.Dict.{Dict, lookup}
use raft_project.Codec.{e64func, le_encode}
use raft_project.Store.Lists.{e_list_key, e_list_meta_key, e_list_meta_value, llpush, lrpush}
use raft_project.Store.Lists.Queue.{Items, Holds}
use raft_project.Store.Lists.Ends.{Leaves, list_push}
use raft_project.Store.Sets.{e_set_key}
use raft_project.Store.Database.{Database}
use raft_project.Tests.Store.{disk, fetch, willing}

abbrev pub name : Bytes
name = codes "q"

-- A list of two values, of which a third, behind them, has been popped.
abbrev pub two : Dict Bytes
unfolding e_list_meta_key e_list_meta_value e_list_key
two =
    (e_list_meta_key name, e_list_meta_value 0 2)
    ∷ (e_list_key name 0, codes "a")
    ∷ (e_list_key name 1, codes "b")
    ∷ (e_list_key name 2, codes "c")
    ∷ []

abbrev values : List Bytes
values = codes "a" ∷ codes "b" ∷ []

pub two-Holds : Holds disk two name 0 values
unfolding two e_list_meta_key e_list_meta_value e_list_key Items lookup bytes_eq e64func le_encode
two-Holds = record { word = omega arith; bounds = refl; items = (refl, (refl, tt)) }

list_push_example :
    Leaves disk (llpush disk two name (codes "d")) 3 name (codes "d" ∷ values)
    × Leaves disk (lrpush disk two name (codes "d")) 3 name (values ++ codes "d" ∷ [])
list_push_example =
    list_push disk willing two name (codes "d") values (inr (0, two-Holds)) (omega arith)

abbrev member_key : Bytes
unfolding e_set_key
member_key = e_set_key name (codes "x")

pub some_same : (s d : Dict Bytes) → ◌≡◌ {A = Option (Dict Bytes)} (some s) (some d) → d ≡ s
some_same s d h = cc

-- A database that is the dictionary itself.
abbrev pub file : Database disk
file = record {
  Data = Dict Bytes;
  begin = λ d. d;
  commit = λ d s. some s;
  get-commit = λ d d' s k h. ap (λ m. fetch (lookup k m)) (some_same s d' h);
}
