-- ===== src/Raft/Machine/Refined.antt =====
-- `commitEntries` implements the replicated machine.
use raft_project.Common.{
  ℕ, ◌≡◌, refl, sym, ap, ◌∙◌, ◌⊎◌, inl, inr, Bool, true, false, Option, none, some, List, [], ◌∷◌,
}
use raft_project.Common.Tests.{leb, ◌==◌, if◌then◌else◌, Bool-cases, Option-cases}
use raft_project.Common.Lists.{Bytes, bytes_eq, length}
use raft_project.Common.Outcome.{Outcome, ok, err, panic, ◌>>=◌}
use raft_project.Store.{Badger}
use raft_project.Contract.Exec.{Db}
use raft_project.Chain.Block.{Blocks}
use raft_project.Chain.Results.{Fault}
use raft_project.Txpool.{Pool, filter}
use raft_project.Txpool.Kept.{filter_lem}
use raft_project.Raft.{
  Entry, EntryType, entry_normal, entry_conf_change, ConfChange, ConfChangeType,
  conf_change_add_node, conf_change_remove_node, conf_change_other, add_remote, add_peer,
  remove_peer, transport_stop, node_stop, Outside, Config, Moment, RaftNode,
}
use raft_project.Raft.Ranging.{remove_matching}
use raft_project.Raft.Members.{
  peer_or_empty, peer_of, calling, update_cluster_info, change_members, apply_conf_change,
}
use raft_project.Raft.Commit.{
  or_stop, at_end, commit_block, commit_new, commit_decoded, commit_kind, commit_entry,
  commit_entries,
}
use raft_project.Raft.Machine.{
  Replica, replica_of, at_index, apply_block, apply_kind, apply_entry, apply_entries, IsRemoval,
  Removes, HasRemoval, Follows,
}

filter_total :
    (pool : Pool) (blk : Blocks) (now : ℕ) → (p : Pool) × (filter pool blk.txs now ≡ ok p)
filter_total pool blk now =
    let (p, e, _) = filter_lem pool blk.txs now (λ tx. false) (λ tx h. cc h) in (p, e)

module _ (b : Badger) (o : Outside) (c : Config) where
  abbrev Keeps : Type 0 → RaftNode b → Outcome Fault (RaftNode b) → Type 0
  Keeps P nd (ok nd') = replica_of b o c nd' ≡ replica_of b o c nd
  Keeps P nd (err e) = ⊥
  Keeps P nd panic = P

  recast :
      (P : Type 0) (nd nd' : RaftNode b) (r : Outcome Fault (RaftNode b))
      → replica_of b o c nd ≡ replica_of b o c nd'
      → Keeps P nd r
      → Keeps P nd' r
  recast P nd nd' (ok nd2) e k = k ∙ e
  recast P nd nd' (err x) e k = k
  recast P nd nd' panic e k = k

  added-Keeps :
      (id : ℕ) (ps : Bytes) (nd : RaftNode b) → Keeps ⊥ nd (update_cluster_info b true id ps nd)
  unfolding update_cluster_info
  added-Keeps id ps nd = elim (Bool-cases (length ps == 0)) [
    | inl empty ↦ rw empty refl
    | inr filled ↦ rw filled refl
  ]

  dropped-Keeps :
      (id : ℕ) (ps : Bytes) (nd : RaftNode b) → Keeps Unit nd (update_cluster_info b false id ps nd)
  unfolding update_cluster_info
  dropped-Keeps id ps nd =
      let test : Bytes → Bool = bytes_eq (peer_or_empty (peer_of id nd.id_peer)) in
      elim (Option-cases (remove_matching test nd.peers)) [
        | inl out ↦ rw out tt
        | inr (left, is) ↦ rw is refl
      ]

  change_members-Keeps :
      (self : ℕ) (k : ConfChangeType) (cc : ConfChange) (nd : RaftNode b)
      → Keeps (IsRemoval b o c k) nd (change_members b self k cc nd)
  unfolding change_members
  change_members-Keeps self conf_change_add_node change nd =
      let told =
        calling b
          (add_remote change.node_id change.context ∷ add_peer change.node_id change.context ∷ [])
          nd in
      elim (Bool-cases (length change.context == 0)) [
        | inl empty ↦ rw empty refl
        | inr filled ↦ rw filled (
            recast ⊥ told nd (update_cluster_info b true change.node_id change.context told) refl
              (added-Keeps change.node_id change.context told))
      ]
  change_members-Keeps self conf_change_remove_node change nd =
      let told =
        calling b
          (if self == change.node_id
            then transport_stop ∷ node_stop ∷ []
            else remove_peer change.node_id ∷ [])
          nd in
      recast Unit told nd (update_cluster_info b false change.node_id [] told) refl
        (dropped-Keeps change.node_id [] told)
  change_members-Keeps self conf_change_other change nd = refl

  members_done :
      (P : Type 0) (i : ℕ) (nd : RaftNode b) (x : Outcome Fault (RaftNode b))
      → Keeps P nd x
      → Follows b o c P
          (or_stop x >>= (λ nd'. ok (Bool.true, nd')) >>= (λ r. ok (at_end b o c i r)))
          (ok (at_index b o c i (replica_of b o c nd)))
  members_done P i nd (ok nd') k = ap (λ r. ok (at_index b o c i r)) (sym k)
  members_done P i nd (err e) k = absurd k
  members_done P i nd panic k = inr k

  extended :
      (x : Outcome Fault (Db × b.Txn)) (i : ℕ) (nd : RaftNode b) (blk : Blocks)
      → Follows b o c ⊥
          (x
            >>= (λ r. ok (true, record nd { tokens = r.0; chain = r.1; last_height = blk.height }))
            >>= (λ r. ok (at_end b o c i r)))
          (x >>= λ new.
            ok (record { index = i; height = blk.height; tokens = new.0; chain = new.1 }))
  extended (ok (db, s)) i nd blk = refl
  extended (err e) i nd blk = refl
  extended panic i nd blk = inl refl

  new_block :
      (m : Moment) (i : ℕ) (nd : RaftNode b) (blk : Blocks)
      → Follows b o c ⊥
          (commit_new b o c m nd blk >>= λ r. ok (at_end b o c i r))
          (apply_block b o c m i (replica_of b o c nd) (some blk))
  unfolding commit_new apply_block
  new_block m i nd blk = elim (Bool-cases (leb blk.height nd.last_height)) [
    | inl stale ↦ rw stale refl
    | inr above ↦
        rw above (extended (commit_block b o c m nd.last_height nd.tokens nd.chain blk) i nd blk)
  ]

  decoded :
      (m : Moment) (i : ℕ) (nd : RaftNode b) (blk : Option Blocks)
      → Follows b o c ⊥
          (commit_decoded b o c m nd blk >>= λ r. ok (at_end b o c i r))
          (apply_block b o c m i (replica_of b o c nd) blk)
  unfolding apply_block
  decoded m i nd none = refl
  decoded m i nd (some blk) =
      let (p, e) = filter_total nd.pool blk m.now in
      rw e (new_block m i (record nd { pool = p }) blk)

  kind_lem :
      (m : Moment) (e : Entry) (nd : RaftNode b) (k : EntryType)
      → Follows b o c
          (Removes b o c e k)
          (commit_kind b o c m nd e k >>= λ r. ok (at_end b o c e.index r))
          (apply_kind b o c m e k (replica_of b o c nd))
  unfolding apply_kind apply_conf_change
  kind_lem m e nd entry_normal = decoded m e.index nd (o.blocks_of e.data_of)
  kind_lem m e nd entry_conf_change =
      let change = o.conf_change_of e.data_of in
      let nd1 = record nd { conf_state = m.conf_state } in
      members_done (IsRemoval b o c change.kind) e.index nd1
        (change_members b c.id change.kind change nd1)
        (change_members-Keeps c.id change.kind change nd1)

  entry_lem :
      (m : Moment) (e : Entry) (nd : RaftNode b)
      → Follows b o c
          (Removes b o c e e.kind)
          (commit_entry b o c m nd e)
          (apply_entry b o c m (replica_of b o c nd) e)
  unfolding commit_entry apply_entry
  entry_lem m e nd = elim (Bool-cases (leb e.index nd.committed_index)) [
    | inl old ↦ rw old refl
    | inr next ↦ elim (Bool-cases (length e.data_of == 0)) [
      | inl empty ↦ rw (next, empty) refl
      | inr filled ↦ rw (next, filled) (kind_lem m e nd e.kind)
    ]
  ]

  weaker :
      (P Q : Type 0) (x : Outcome Fault (RaftNode b)) (y : Outcome Fault (Replica b))
      → Follows b o c Q x y
      → Follows b o c (P ⊎ Q) x y
  weaker P Q (ok nd) y f = f
  weaker P Q (err e) y f = f
  weaker P Q panic y (inl stops) = inl stops
  weaker P Q panic y (inr removal) = inr (inr removal)

  followed :
      (at : ℕ → Moment) (es : List Entry) (P : Type 0) (x : Outcome Fault (RaftNode b))
      (y : Outcome Fault (Replica b))
      → Follows b o c P x y
      → ((nd : RaftNode b)
          → Follows b o c
              (HasRemoval b o c es)
              (commit_entries b o c at nd es)
              (apply_entries b o c at (replica_of b o c nd) es))
      → Follows b o c
          (P ⊎ HasRemoval b o c es)
          (x >>= λ nd. commit_entries b o c at nd es)
          (y >>= λ r. apply_entries b o c at r es)
  followed at es P (ok nd) y f next = rw f (
      weaker P (HasRemoval b o c es) (commit_entries b o c at nd es)
        (apply_entries b o c at (replica_of b o c nd) es) (next nd))
  followed at es P (err e) y f next = rw f refl
  followed at es P panic y (inl stops) next = rw stops (inl refl)
  followed at es P panic y (inr removal) next = inr (inl removal)

  -- Up to panics of changes that take a member out, a node commits what the machine applies, and
  -- panics where the machine stops. The machine's state is the last index and height, the contract
  -- database and the chain: with one configuration, one list of entries and one answer of the
  -- stores and the clock for each entry, a node's pool, members, snapshots and hard state have no
  -- part in these four. What the checks and `CommitBlock` do with the next block is one step of
  -- both.
  pub commit_entries-Follows :
      (at : ℕ → Moment) (es : List Entry) (nd : RaftNode b)
      → Follows b o c
          (HasRemoval b o c es)
          (commit_entries b o c at nd es)
          (apply_entries b o c at (replica_of b o c nd) es)
  unfolding commit_entries apply_entries
  commit_entries-Follows at [] nd = refl
  commit_entries-Follows at (e ∷ es) nd =
      followed at es (Removes b o c e e.kind) (commit_entry b o c (at e.index) nd e)
        (apply_entry b o c (at e.index) (replica_of b o c nd) e) (entry_lem (at e.index) e nd)
        (λ nd'. commit_entries-Follows at es nd')
