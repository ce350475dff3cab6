-- ===== src/Raft/Machine/Agreement.antt =====
-- Nodes that commit the same log hold the same ledger.
use raft_project.Common.{ℕ, ◌≡◌, refl, sym, ◌∙◌, inl, inr, Option, none, some, List, [], ◌∷◌}
use raft_project.Common.Outcome.{Outcome, ok, err, panic, ◌>>=◌}
use raft_project.Store.{Badger}
use raft_project.Chain.Block.{Blocks}
use raft_project.Chain.Results.{Fault}
use raft_project.Raft.{
  Entry, EntryType, entry_normal, entry_conf_change, Outside, Config, Moment, RaftNode,
}
use raft_project.Raft.Commit.{check_block, commit_block, commit_entries}
use raft_project.Raft.Machine.{
  Replica, replica_of, apply_block, apply_kind, apply_entry, apply_entries, HasRemoval, Follows,
}
use raft_project.Raft.Machine.Refined.{commit_entries-Follows}

-- Moments that differ at most in the clock and in what raft answers to a change of the members.
abbrev pub Alike : Moment → Moment → Type 0
Alike m m' = (now : ℕ) × (confs : List ℕ) × (m' ≡ record m { now = now; conf_state = confs })

same_rest :
    {E A B : Type 0} (x : Outcome E A) (f g : A → Outcome E B)
    → ((a : A) → f a ≡ g a)
    → (x >>= f) ≡ (x >>= g)
same_rest (ok a) f g h = h a
same_rest (err e) f g h = refl
same_rest panic f g h = refl

-- Configurations that differ at most in the node's identity and in how often it takes a snapshot.
abbrev pub SameRules : Config → Config → Type 0
SameRules c c' = (id : ℕ) × (n : ℕ) × (c' ≡ record c { id = id; snap_count = n })

module _ (b : Badger) (o : Outside) (c c' : Config) where
  -- Two outcomes of nodes: the same ledger, or the same failure; only for `P` one may panic alone.
  abbrev pub Agree : Type 0 → Outcome Fault (RaftNode b) → Outcome Fault (RaftNode b) → Type 0
  Agree P (ok x) (ok y) = replica_of b o c x ≡ replica_of b o c' y
  Agree P (ok x) (err e) = ⊥
  Agree P (ok x) panic = P
  Agree P (err e) (ok y) = ⊥
  Agree P (err e) (err e') = Unit
  Agree P (err e) panic = P
  Agree P panic (ok y) = P
  Agree P panic (err e) = P
  Agree P panic panic = Unit

  both_follow :
      (P : Type 0) (x y : Outcome Fault (RaftNode b)) (r : Outcome Fault (Replica b))
      → Follows b o c P x r
      → Follows b o c' P y r
      → Agree P x y
  both_follow P (ok x) (ok y) r f g =
      let same : ok (replica_of b o c x) ≡ ok (replica_of b o c' y) = sym f ∙ g in cc same
  both_follow P (ok x) (err e) r f g = cc (f, g)
  both_follow P (ok x) panic r f (inl g) = cc (f, g)
  both_follow P (ok x) panic r f (inr g) = g
  both_follow P (err e) (ok y) r f g = cc (f, g)
  both_follow P (err e) (err e') r f g = tt
  both_follow P (err e) panic r f (inl g) = cc (f, g)
  both_follow P (err e) panic r f (inr g) = g
  both_follow P panic (ok y) r (inl f) g = cc (f, g)
  both_follow P panic (ok y) r (inr f) g = f
  both_follow P panic (err e) r (inl f) g = cc (f, g)
  both_follow P panic (err e) r (inr f) g = f
  both_follow P panic panic r f g = tt

module _ (b : Badger) (o : Outside) (c c' : Config) (rules : SameRules c c') where
  apply_block-Alike :
      (m m' : Moment) (i : ℕ) (r : Replica b) (blk : Option Blocks)
      → Alike m m'
      → apply_block b o c' m' i r blk ≡ apply_block b o c m i r blk
  unfolding apply_block commit_block check_block
  apply_block-Alike m m' i r none alike = refl
  apply_block-Alike m m' i r (some blk) (now, confs, is) =
      let (id, n, config) = rules in rw (is, config) refl

  apply_kind-Alike :
      (m m' : Moment) (e : Entry) (k : EntryType) (r : Replica b)
      → Alike m m'
      → apply_kind b o c' m' e k r ≡ apply_kind b o c m e k r
  unfolding apply_kind
  apply_kind-Alike m m' e entry_normal r alike =
      apply_block-Alike m m' e.index r (o.blocks_of e.data_of) alike
  apply_kind-Alike m m' e entry_conf_change r alike = refl

  apply_entries-Alike :
      (at at' : ℕ → Moment) (es : List Entry) (r : Replica b)
      → ((i : ℕ) → Alike (at i) (at' i))
      → apply_entries b o c' at' r es ≡ apply_entries b o c at r es
  unfolding apply_entries apply_entry
  apply_entries-Alike at at' [] r alike = refl
  apply_entries-Alike at at' (e ∷ es) r alike =
      let here : apply_entry b o c' (at' e.index) r e ≡ apply_entry b o c (at e.index) r e =
        rw (apply_kind-Alike (at e.index) (at' e.index) e e.kind r (alike e.index)) refl in
      rw here (
        same_rest (apply_entry b o c (at e.index) r e) (λ r'. apply_entries b o c' at' r' es)
          (λ r'. apply_entries b o c at r' es) (λ r'. apply_entries-Alike at at' es r' alike))

  -- Two nodes with the same last index and height, contract database and chain, whose
  -- configurations differ at most in the node's identity and in how often it takes a snapshot,
  -- commit the same entries, while badger and the contract database do the same for both. So they
  -- have the same address of their own, which is paid the fees of scripts, and the same addresses
  -- of the shop, the community and the distributor. Then both have the same last index and height,
  -- contract database and chain afterwards, or both panic, whatever their pools, clocks, members
  -- and snapshots are; only when the entries take a member out may one of them panic alone.
  pub commit_entries-Agree :
      (at at' : ℕ → Moment) (es : List Entry) (nd nd' : RaftNode b)
      → ((i : ℕ) → Alike (at i) (at' i))
      → replica_of b o c nd ≡ replica_of b o c' nd'
      → Agree b o c c'
          (HasRemoval b o c es)
          (commit_entries b o c at nd es)
          (commit_entries b o c' at' nd' es)
  commit_entries-Agree at at' es nd nd' alike same =
      both_follow b o c c' (HasRemoval b o c es) (commit_entries b o c at nd es)
        (commit_entries b o c' at' nd' es) (apply_entries b o c at (replica_of b o c nd) es)
        (commit_entries-Follows b o c at es nd)
        (rw (same, ← apply_entries-Alike at at' es (replica_of b o c' nd') alike)
          (commit_entries-Follows b o c' at' es nd'))
