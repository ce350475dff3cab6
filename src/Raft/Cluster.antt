-- ===== src/Raft/Cluster.antt =====
-- Requests about the cluster: `NodeManagement` and `GetClusterInfo` of raftconsensus/node.go, and
-- `HandleNode` of raftconsensus/noderpc_server.go, which hands requests to them.
use raft_project.Common.{
  ℕ, ◌≤◌, ◌≡◌, refl, inl, inr, Bool, true, Option, none, some, List, [], ◌∷◌, arith,
}
use raft_project.Common.Tests.{ltb, ◌==◌, if◌then◌else◌, Bool-cases}
use raft_project.Common.Lists.{Bytes, bytes_eq, length}
use raft_project.Raft.{ConfChange, conf_change_add_node, conf_change_remove_node}
use raft_project.Raft.Members.{Peers, peer_of, peer_or_empty}

pub data NodeChangeType : Type 0 where
  raft_add_node raft_remove_node raft_get_node_info : NodeChangeType

pub record Request : Type 0 where
  pub kind : NodeChangeType
  pub id : ℕ
  pub peer : Bytes

-- The texts that `NodeManagement` answers with.
pub data Refusal : Type 0 where
  id_exists peer_exists id_missing : Refusal

-- The loop over `idPeer`, whose `break`s end it alone.
unfoldable pub find_member : ℕ → Bytes → Peers → Option Refusal
find_member id peer [] = none
find_member id peer ((k, v) ∷ ps) =
    if k == id
    then some id_exists
    else if bytes_eq v peer
    then some peer_exists
    else find_member id peer ps

abbrev removal : ℕ → Option Bytes → Option Refusal × Option ConfChange
removal id none = (some id_missing, none)
removal id (some p) =
    (none, some (record { kind = conf_change_remove_node; node_id = id; context = [] }))

-- What the leader answers, and the change that it proposes. `to_json` is the JSON of a string.
abbrev answered :
    (Bytes → Bytes) → Peers → Request → NodeChangeType → Option Refusal × Option ConfChange
answered to_json peers req raft_add_node = (
  find_member req.id req.peer peers,
  some (record { kind = conf_change_add_node; node_id = req.id; context = to_json req.peer }),
)
answered to_json peers req raft_remove_node = removal req.id (peer_of req.id peers)
answered to_json peers req raft_get_node_info = (none, none)

-- `NodeManagement`; only the leader does anything.
unfoldable pub node_management :
    (Bytes → Bytes) → Bool → Peers → Request → Option Refusal × Option ConfChange
node_management to_json leader peers req =
    if leader then answered to_json peers req req.kind else (none, none)

-- `GetClusterInfo`
pub record ClusterInfo : Type 0 where
  pub cluster_id : ℕ
  pub peers : List Bytes
  pub leader_id : ℕ
  pub leader_peer : Bytes
  pub node_id : ℕ
  pub node_peer : Bytes
  pub total_node_num : ℕ
  pub max_node_id : ℕ

unfoldable pub max_id : ℕ → Peers → ℕ
max_id m [] = m
max_id m ((k, v) ∷ ps) = if ltb m k then max_id k ps else max_id m ps

unfoldable pub get_cluster_info : ℕ → ℕ → ℕ → List Bytes → Peers → ClusterInfo
get_cluster_info cluster_id id leader peers id_peer = record {
  cluster_id = cluster_id;
  peers = peers;
  leader_id = leader;
  leader_peer = peer_or_empty (peer_of leader id_peer);
  node_id = id;
  node_peer = peer_or_empty (peer_of id id_peer);
  total_node_num = length peers;
  max_node_id = max_id 1 id_peer;
}

-- `HandleNode`: what is answered to a request, with the cluster's description if it asks for that.
unfoldable pub handle_node :
    (Bytes → Bytes)
    → Bool
    → ClusterInfo
    → Peers
    → Request
    → (Option Refusal × Option ConfChange) × Option ClusterInfo
handle_node to_json leader info peers req = (
  node_management to_json leader peers req,
  elim req.kind [ raft_add_node ↦ none | raft_remove_node ↦ none | raft_get_node_info ↦ some info ],
)

find_member-known :
    (id : ℕ) (peer p : Bytes) (ps : Peers)
    → peer_of id ps ≡ some p
    → (r : Refusal) × (find_member id peer ps ≡ some r)
unfolding find_member peer_of
find_member-known id peer p [] h = cc h
find_member-known id peer p ((k, v) ∷ ps) h = elim (Bool-cases (k == id)) [
  | inl same ↦ rw same (id_exists, refl)
  | inr other ↦ elim (Bool-cases (bytes_eq v peer)) [
    | inl taken ↦ rw (other, taken) (peer_exists, refl)
    | inr free ↦
        let later : peer_of id ps ≡ some p = rw (← h, other) refl in
        rw (other, free) (find_member-known id peer p ps later)
  ]
]

-- Asked to add a node whose identity the cluster has, the leader answers that it failed, and proposes to
-- add the node all the same. Asked to remove one that the cluster does not have, it proposes nothing.
pub node_management_lem :
    (to_json : Bytes → Bytes) (peers : Peers) (id : ℕ) (peer p : Bytes)
    → (peer_of id peers ≡ some p
        → (r : Refusal) × (node_management to_json true peers
              (record { kind = raft_add_node; id = id; peer = peer })
            ≡ (
              some r,
              some (record { kind = conf_change_add_node; node_id = id; context = to_json peer }),
            )))
      × (peer_of id peers ≡ none
          → node_management to_json true peers
              (record { kind = raft_remove_node; id = id; peer = peer })
            ≡ (some id_missing, none))
unfolding node_management
node_management_lem to_json peers id peer p = (
  λ known. let (r, found) = find_member-known id peer p peers known in (r, rw found refl),
  λ unknown. rw unknown refl,
)

at_most :
    (id k : ℕ) (v found p : Option Bytes) (m : ℕ)
    → k ≤ m
    → (found ≡ p → id ≤ m)
    → (if k == id then v else found) ≡ p
    → id ≤ m
at_most id k v found p m above later h = elim (Bool-cases (k == id)) [
  | inl same ↦ ground (arith, same)
  | inr other ↦ later (rw (← h, other) refl)
]

-- No member has a larger identity than the one that `GetClusterInfo` gives for the largest.
pub max_id_lem :
    (m id : ℕ) (p : Bytes) (ps : Peers)
    → (m ≤ max_id m ps) × (peer_of id ps ≡ some p → id ≤ max_id m ps)
unfolding max_id peer_of
max_id_lem m id p [] = (omega arith, λ h. cc h)
max_id_lem m id p ((k, v) ∷ ps) = elim (Bool-cases (ltb m k)) [
  | inl more ↦
      let (above, all) = max_id_lem k id p ps in
      rw more (
        ground (arith, above, more),
        λ h. at_most id k (some v) (peer_of id ps) (some p) (max_id k ps) above all h,
      )
  | inr less ↦
      let (above, all) = max_id_lem m id p ps in
      rw less (
        above,
        λ h.
            at_most id k (some v) (peer_of id ps) (some p) (max_id m ps)
              (ground (arith, above, less)) all h,
      )
]
