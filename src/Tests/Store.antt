-- ===== src/Tests/Store.antt =====
-- A database for the examples, and the theorems on keys at concrete inputs.
use raft_project.Common.{◌≡◌, refl, ap, ◌∙◌, Bool, true, false, Option, none, some}
use raft_project.Common.Tests.{if◌then◌else◌}
use raft_project.Common.Lists.{Bytes, bytes_eq}
use raft_project.Common.Dict.{Dict, lookup, insert, erase, lookup-insert, lookup-erase}
use raft_project.Store.{Badger, Fetch, found, not_exist}
use raft_project.Store.{Willing}

abbrev pub fetch : Option Bytes → Fetch
fetch none = not_exist
fetch (some v) = found v

fetch-if :
    (c : Bool) (o p : Option Bytes) → fetch (if c then o else p) ≡ (if c then fetch o else fetch p)
fetch-if true o p = refl
fetch-if false o p = refl

pub get-insert :
    (s s' : Dict Bytes) (k v j : Bytes)
    → ◌≡◌ {A = Option (Dict Bytes)} (some (insert k v s)) (some s')
    → fetch (lookup j s') ≡ (if bytes_eq k j then found v else fetch (lookup j s))
get-insert s s' k v j h =
    let same : insert k v s ≡ s' = cc in
    rw (← same) (ap fetch (lookup-insert j k v s) ∙ fetch-if (bytes_eq k j) (some v) (lookup j s))

pub get-erase :
    (s s' : Dict Bytes) (k j : Bytes)
    → ◌≡◌ {A = Option (Dict Bytes)} (some (erase k s)) (some s')
    → fetch (lookup j s') ≡ (if bytes_eq k j then not_exist else fetch (lookup j s))
get-erase s s' k j h =
    let same : erase k s ≡ s' = cc in
    rw (← same) (ap fetch (lookup-erase j k s) ∙ fetch-if (bytes_eq k j) none (lookup j s))

-- A dictionary as a badger transaction, which takes every write.
abbrev pub disk : Badger
disk = record {
  Txn = Dict Bytes;
  get = λ s k. fetch (lookup k s);
  put = λ s k v. some (insert k v s);
  delete = λ s k. some (erase k s);
  get-put = get-insert;
  get-delete = get-erase;
}

abbrev pub willing : Willing disk
willing = record { puts = λ s k v. (insert k v s, refl); deletes = λ s k. (erase k s, refl) }
