-- ===== src/Raft/Entries.antt =====
-- Which entries are taken from a part of raft's log: `committedEntriesToApply`, `EntriesToApply`,
-- `unMarshalSnapData` and `snapEntriesToApply` of raftconsensus/node.go.
use raft_project.Common.{
  ℕ, zero, suc, ◌+◌, ◌-◌, ◌≤◌, ◌≡◌, refl, sym, ap, ◌∙◌, inl, inr, true, false, Option, none, some,
  List, [], ◌∷◌, arith,
}
use raft_project.Common.Tests.{ltb, leb, ◌==◌, if◌then◌else◌, Bool-cases}
use raft_project.Common.Lists.{Bytes, length, drop, get_elem?, drop-all}
use raft_project.Common.Outcome.{Outcome, ok, err, panic, or_panic}
use raft_project.Chain.Results.{Fault}
use raft_project.Raft.{Entry, Outside}
use raft_project.Raft.Ranging.{remove_matching}

-- `committedEntriesToApply`, of the node's committed index.
unfoldable pub committed_entries_to_apply : ℕ → List Entry → Outcome Fault (List Entry)
committed_entries_to_apply committed [] = ok []
committed_entries_to_apply committed (e ∷ es) =
    if ltb committed e.index
    then panic
    else if ltb (committed - e.index) (length (e ∷ es))
    then ok (drop (committed - e.index) (e ∷ es))
    else ok []

-- `EntriesToApply`
unfoldable pub entries_to_apply : List Entry → Outcome Fault (List Entry)
entries_to_apply es = or_panic (remove_matching (λ e. length e.data_of == 0) es)

pub data SnapError : Type 0 where
  no_data no_json no_entries too_early already_committed : SnapError

abbrev some_entries : Option (List Entry) → Outcome SnapError (List Entry)
some_entries none = err no_json
some_entries (some []) = err no_entries
some_entries (some (e ∷ es)) = ok (e ∷ es)

unfoldable pub un_marshal_snap_data : Outside → Bytes → Outcome SnapError (List Entry)
un_marshal_snap_data o text =
    if length text == 0 then err no_data else some_entries (o.entries_of text)

abbrev from_first : ℕ → Entry → List Entry → Option Entry → Outcome SnapError (List Entry)
from_first ci first es none = panic
from_first ci first es (some last) =
    if ltb ci first.index
    then err too_early
    else if ltb last.index ci
    then err already_committed
    else if ltb (length es) (ci - first.index)
    then panic
    else ok (drop (ci - first.index) es)

-- `snapEntriesToApply`, which panics on no entries.
unfoldable pub snap_entries_to_apply : ℕ → List Entry → Outcome SnapError (List Entry)
snap_entries_to_apply ci [] = panic
snap_entries_to_apply ci (e ∷ es) = from_first ci e (e ∷ es) (get_elem? (e ∷ es) (length es))

-- Entries with one index after the other, from `i` on.
abbrev pub AreConsecutive : ℕ → List Entry → Type 0
AreConsecutive i [] = Unit
AreConsecutive i (e ∷ es) = (e.index ≡ i) × AreConsecutive (i + 1) es

-- The entries from an index on.
unfoldable pub from_index : ℕ → List Entry → List Entry
from_index ci [] = []
from_index ci (e ∷ es) = let rest = from_index ci es in if leb ci e.index then e ∷ rest else rest

from_index-all : (ci i : ℕ) (es : List Entry) → AreConsecutive i es → ci ≤ i → from_index ci es ≡ es
unfolding from_index
from_index-all ci i [] next h = refl
from_index-all ci i (e ∷ es) next h =
    let kept : leb ci e.index ≡ true = ground (arith, next.0) in
    rw (kept, from_index-all ci (i + 1) es next.1 (omega arith)) refl

drop-from_index :
    (n i : ℕ) (es : List Entry) → AreConsecutive i es → drop n es ≡ from_index (i + n) es
unfolding from_index
drop-from_index zero i es next = sym (from_index-all (i + 0) i es next (omega arith))
drop-from_index (suc n) i [] next = refl
drop-from_index (suc n) i (e ∷ es) next =
    let dropped : leb (i + suc n) e.index ≡ false = ground (arith, next.0) in
    rw dropped (drop-from_index n (i + 1) es next.1 ∙ ap (λ j. from_index j es) (omega arith))

last_entry :
    (i : ℕ) (e : Entry) (es : List Entry)
    → AreConsecutive i (e ∷ es)
    → (l : Entry) × (get_elem? (e ∷ es) (length es) ≡ some l) × (l.index ≡ i + length es)
last_entry i e [] next = (e, refl, omega (arith, next.0))
last_entry i e (f ∷ es) next =
    let (l, at, is) = last_entry (i + 1) f es next.1 in (l, at, omega (arith, is))

-- `snapEntriesToApply` of consecutive entries gives those from the index `ci` on, if `ci` is the index of
-- one of them, and says why not otherwise.
pub snap_entries_to_apply_lem :
    (ci : ℕ) (e : Entry) (es : List Entry)
    → AreConsecutive e.index (e ∷ es)
    → snap_entries_to_apply ci (e ∷ es) ≡ (
        if ltb ci e.index
        then err too_early
        else if ltb (e.index + length es) ci
        then err already_committed
        else ok (from_index ci (e ∷ es)))
unfolding snap_entries_to_apply
snap_entries_to_apply_lem ci e es next =
    let (l, at, is) = last_entry e.index e es next in
    let tail : drop (ci - e.index) (e ∷ es) ≡ from_index (e.index + (ci - e.index)) (e ∷ es) =
      drop-from_index (ci - e.index) e.index (e ∷ es) next in
    rw (at, is)
      (elim (Bool-cases (ltb ci e.index)) [
        | inl early ↦ rw early refl
        | inr not_early ↦ elim (Bool-cases (ltb (e.index + length es) ci)) [
          | inl late ↦ rw (not_early, late) refl
          | inr inside ↦
              let fits : ltb (length (e ∷ es)) (ci - e.index) ≡ false = ground (arith, inside) in
              let same : e.index + (ci - e.index) ≡ ci = ground (arith, not_early) in
              rw (not_early, inside, fits, tail, same) refl
        ]
      ])

-- `committedEntriesToApply` of consecutive entries panics if the first of them is above the committed
-- index, and else gives those from that index on: the entry with it is given again.
pub committed_entries_to_apply_lem :
    (committed : ℕ) (e : Entry) (es : List Entry)
    → AreConsecutive e.index (e ∷ es)
    → committed_entries_to_apply committed (e ∷ es)
      ≡ (if ltb committed e.index then panic else ok (from_index committed (e ∷ es)))
unfolding committed_entries_to_apply
committed_entries_to_apply_lem committed e es next =
    let tail = drop-from_index (committed - e.index) e.index (e ∷ es) next in
    (elim (Bool-cases (ltb committed e.index)) [
      | inl early ↦ rw early refl
      | inr not_early ↦
          let same : e.index + (committed - e.index) ≡ committed = ground (arith, not_early) in
          elim (Bool-cases (ltb (committed - e.index) (length (e ∷ es)))) [
            | inl inside ↦ rw (not_early, inside, tail, same) refl
            | inr behind ↦
                let all : drop (committed - e.index) (e ∷ es) ≡ [] =
                  drop-all (committed - e.index) (e ∷ es) (ground (arith, behind)) in
                rw (not_early, behind) (ap ok (sym all ∙ tail ∙ rw same refl))
          ]
    ])
