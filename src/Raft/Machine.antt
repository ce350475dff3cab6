-- ===== src/Raft/Machine.antt =====
-- The machine that raft replicates: what `commitEntries` does to the ledger, without the pool, the
-- clock, the members and the snapshots of a node.
pub mod Refined
pub mod Agreement
pub mod Growth
use raft_project.Common.{
  ℕ, ◌+◌, ◌-◌, ◌%◌, ◌^◌, ◌≡◌, refl, sym, ap, ◌∙◌, ◌⊎◌, inl, inr, Bool, true, false, Option, none,
  some, List, [], ◌∷◌,
}
use raft_project.Common.Tests.{leb, ◌==◌, if◌then◌else◌, Bool-cases, Option-cases}
use raft_project.Common.Lists.{Bytes, bytes_eq, length}
use raft_project.Common.Outcome.{Outcome, ok, err, panic, ◌>>=◌}
use raft_project.Store.{Badger}
use raft_project.Contract.Exec.{Db}
use raft_project.Transaction.{Transaction}
use raft_project.Chain.Block.{Blocks}
use raft_project.Chain.Results.{Fault}
use raft_project.Txpool.{Pool, filter}
use raft_project.Txpool.Kept.{filter_lem}
use raft_project.Raft.{
  Entry, EntryType, entry_normal, entry_conf_change, ConfChange, ConfChangeType,
  conf_change_add_node, conf_change_remove_node, conf_change_other, add_remote, add_peer,
  remove_peer, transport_stop, node_stop, Outside, Config, Moment, RaftNode,
}
use raft_project.Raft.Ranging.{remove_matching}
use raft_project.Raft.Members.{
  peer_or_empty, peer_of, calling, update_cluster_info, change_members, apply_conf_change,
}
use raft_project.Raft.Commit.{
  or_stop, at_end, commit_block, commit_new, commit_decoded, commit_kind, commit_entry,
  commit_entries,
}

-- The last index and height, the contract database and the chain.
pub record Replica (b : Badger) : Type 0 where
  pub index : ℕ
  pub height : ℕ
  pub tokens : Db
  pub chain : b.Txn

module _ (b : Badger) (o : Outside) (c : Config) where
  abbrev pub replica_of : RaftNode b → Replica b
  replica_of nd = record {
    index = nd.committed_index;
    height = nd.last_height;
    tokens = nd.tokens;
    chain = nd.chain;
  }

  abbrev pub at_index : ℕ → Replica b → Replica b
  at_index i r = record r { index = i }

  -- A block is the next one, or it is not above the last, or the machine stops.
  unfoldable pub apply_block : Moment → ℕ → Replica b → Option Blocks → Outcome Fault (Replica b)
  apply_block m i r none = ok r
  apply_block m i r (some blk) =
      let extended = commit_block b o c m r.height r.tokens r.chain blk >>= λ new.
      ok (record { index = i; height = blk.height; tokens = new.0; chain = new.1 }) in
      if leb blk.height r.height then ok (at_index ((r.index + 1) % 2 ^ 64) r) else extended

  unfoldable pub apply_kind : Moment → Entry → EntryType → Replica b → Outcome Fault (Replica b)
  apply_kind m e entry_normal r = apply_block m e.index r (o.blocks_of e.data_of)
  apply_kind m e entry_conf_change r = ok (at_index e.index r)

  unfoldable pub apply_entry : Moment → Replica b → Entry → Outcome Fault (Replica b)
  apply_entry m r e =
      let body = apply_kind m e e.kind r in
      if leb e.index r.index
      then ok r
      else if length e.data_of == 0
      then ok (at_index e.index r)
      else body

  unfoldable pub apply_entries : (ℕ → Moment) → Replica b → List Entry → Outcome Fault (Replica b)
  apply_entries at r [] = ok r
  apply_entries at r (e ∷ es) = apply_entry (at e.index) r e >>= λ r'. apply_entries at r' es

  -- A change that takes a member out.
  abbrev pub IsRemoval : ConfChangeType → Type 0
  IsRemoval conf_change_add_node = ⊥
  IsRemoval conf_change_remove_node = Unit
  IsRemoval conf_change_other = ⊥

  abbrev pub Removes : Entry → EntryType → Type 0
  Removes e entry_normal = ⊥
  Removes e entry_conf_change = IsRemoval (o.conf_change_of e.data_of).kind

  abbrev pub HasRemoval : List Entry → Type 0
  HasRemoval [] = ⊥
  HasRemoval (e ∷ es) = Removes e e.kind ⊎ HasRemoval es

  -- The node's outcome is the machine's; only for `P` may it panic where the machine does not.
  abbrev pub Follows : Type 0 → Outcome Fault (RaftNode b) → Outcome Fault (Replica b) → Type 0
  Follows P (ok nd) r = r ≡ ok (replica_of nd)
  Follows P (err e) r = r ≡ err e
  Follows P panic r = (r ≡ panic) ⊎ P
