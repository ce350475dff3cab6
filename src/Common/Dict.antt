-- ===== src/Common/Dict.antt =====
-- A Go `map` keyed by byte strings, and a key-value store, as an association list.
use mathlib.Core.Path.{◌≡◌, refl}
use mathlib.Core.Logic.{◌≢◌}
use mathlib.Core.Option.{Option, none, some}
use mathlib.Core.List.{List, [], ◌∷◌}
use native.Mathlib.Omega.{arith}
use raft_project.Common.Tests.{if◌then◌else◌}
use raft_project.Common.Lists.{Bytes, bytes_eq, bytes_eq_iff}

abbrev pub Dict {ℓ} : Type ℓ → Type ℓ
Dict V = List (Bytes × V)

module _ {ℓ} {V : Type ℓ} where
  unfoldable pub lookup : Bytes → Dict V → Option V
  lookup k [] = none
  lookup k ((j, v) ∷ m) = if bytes_eq j k then some v else lookup k m

  -- `m[k] = v`
  unfoldable pub insert : Bytes → V → Dict V → Dict V
  insert k v [] = (k, v) ∷ []
  insert k v ((j, w) ∷ m) = if bytes_eq j k then (k, v) ∷ m else (j, w) ∷ insert k v m

  -- `delete(m, k)`
  unfoldable pub erase : Bytes → Dict V → Dict V
  erase k [] = []
  erase k ((j, w) ∷ m) = let rest = erase k m in if bytes_eq j k then rest else (j, w) ∷ rest

  pub lookup-insert :
      (j k : Bytes) (v : V) (m : Dict V)
      → lookup j (insert k v m) ≡ (if bytes_eq k j then some v else lookup j m)
  unfolding lookup insert
  lookup-insert j k v [] = refl
  lookup-insert j k v ((i, w) ∷ m) =
      ground (arith, bytes_eq_iff k j, bytes_eq_iff i k, bytes_eq_iff i j, lookup-insert j k v m)

  pub lookup-erase :
      (j k : Bytes) (m : Dict V)
      → lookup j (erase k m) ≡ (if bytes_eq k j then none else lookup j m)
  unfolding lookup erase
  lookup-erase j k [] = ground arith
  lookup-erase j k ((i, w) ∷ m) =
      ground (arith, bytes_eq_iff k j, bytes_eq_iff i k, bytes_eq_iff i j, lookup-erase j k m)

  pub lookup-insert_self : (k : Bytes) (v : V) (m : Dict V) → lookup k (insert k v m) ≡ some v
  lookup-insert_self k v m = ground (arith, lookup-insert k k v m, bytes_eq_iff k k)

  pub lookup-insert_ne :
      (j k : Bytes) (v : V) (m : Dict V) → k ≢ j → lookup j (insert k v m) ≡ lookup j m
  lookup-insert_ne j k v m h = ground (arith, lookup-insert j k v m, bytes_eq_iff k j)
