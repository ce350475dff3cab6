-- ===== src/Raft/Members.antt =====
-- The cluster's members: `updateClusterInfo`, `NodeManagement` and `GetClusterInfo` of
-- raftconsensus/node.go, and the part of `commitEntries` for a change of the members.
use raft_project.Common.{ℕ, Bool, true, false, Option, none, some, List, [], ◌∷◌, ◌++◌}
use raft_project.Common.Tests.{◌==◌, if◌then◌else◌}
use raft_project.Common.Lists.{Bytes, bytes_eq, length}
use raft_project.Common.Outcome.{Outcome, ok, ◌>>=◌, or_panic}
use raft_project.Store.{Badger}
use raft_project.Chain.Results.{Fault}
use raft_project.Raft.{
  ConfChange, ConfChangeType, conf_change_add_node, conf_change_remove_node, conf_change_other,
  RaftNode, Call, add_remote, add_peer, remove_peer, transport_stop, node_stop,
}
use raft_project.Raft.Ranging.{remove_matching}

-- `idPeer`
abbrev pub Peers : Type 0
Peers = List (ℕ × Bytes)

unfoldable pub peer_of : ℕ → Peers → Option Bytes
peer_of id [] = none
peer_of id ((j, p) ∷ ps) = if j == id then some p else peer_of id ps

unfoldable pub without_peer : ℕ → Peers → Peers
without_peer id [] = []
without_peer id ((j, p) ∷ ps) =
    let rest = without_peer id ps in if j == id then rest else (j, p) ∷ rest

-- `rn.idPeer[id]`, "" for a missing key.
abbrev pub peer_or_empty : Option Bytes → Bytes
peer_or_empty none = []
peer_or_empty (some p) = p

abbrev pub added_peer : ℕ → Bytes → Peers → Option Bytes → Peers
added_peer id ps peers none = peers ++ (id, ps) ∷ []
added_peer id ps peers (some p) = peers

module _ (b : Badger) where
  abbrev pub with_members : RaftNode b → List Bytes → Peers → RaftNode b
  with_members nd peers id_peer = record nd { peers = peers; id_peer = id_peer }

  -- `updateClusterInfo`
  unfoldable pub update_cluster_info : Bool → ℕ → Bytes → RaftNode b → Outcome Fault (RaftNode b)
  update_cluster_info true id ps nd =
      if length ps == 0
      then ok nd
      else ok (
          with_members nd (nd.peers ++ ps ∷ [])
            (added_peer id ps nd.id_peer (peer_of id nd.id_peer)))
  update_cluster_info false id ps nd =
      or_panic (remove_matching (bytes_eq (peer_or_empty (peer_of id nd.id_peer))) nd.peers)
      >>= λ peers. ok (with_members nd peers (without_peer id nd.id_peer))

  abbrev pub calling : List Call → RaftNode b → RaftNode b
  calling cs nd = record nd { calls = nd.calls ++ cs }

  -- A change of the members from the log. `self` is the node's own identity and `confs` what raft
  -- answers.
  unfoldable pub change_members :
      ℕ → ConfChangeType → ConfChange → RaftNode b → Outcome Fault (RaftNode b)
  change_members self conf_change_add_node cc nd =
      let told =
        calling (add_remote cc.node_id cc.context ∷ add_peer cc.node_id cc.context ∷ []) nd in
      if length cc.context == 0 then ok nd else update_cluster_info true cc.node_id cc.context told
  change_members self conf_change_remove_node cc nd =
      let told =
        calling
          (if self == cc.node_id
            then transport_stop ∷ node_stop ∷ []
            else remove_peer cc.node_id ∷ [])
          nd in
      update_cluster_info false cc.node_id [] told
  change_members self conf_change_other cc nd = ok nd

  unfoldable pub apply_conf_change :
      ℕ → List ℕ → ConfChange → RaftNode b → Outcome Fault (RaftNode b)
  apply_conf_change self confs cc nd =
      change_members self cc.kind cc (record nd { conf_state = confs })
