-- ===== src/Raft.antt =====
-- The raft node of raftconsensus/node.go: its data, of raftconsensus/structs_inc.go. Raft itself, its
-- storage, its transport and JSON are not part of the repository.
pub mod Ranging
pub mod Members
pub mod Commit
pub mod Machine
pub mod Replay
pub mod Advance
pub mod Entries
pub mod Ready
pub mod Cluster
use raft_project.Common.{ℕ, Bool, Option, none, some, List, []}
use raft_project.Common.Lists.{Bytes}
use raft_project.Store.{Badger}
use raft_project.Transaction.{Transaction}
use raft_project.Contract.Exec.{Db}
use raft_project.Chain.Block.{Blocks, Contracts}
use raft_project.Txpool.{Pool}

-- What is read of an entry of raft's log, and of a change of its members.
pub data EntryType : Type 0 where
  entry_normal entry_conf_change : EntryType

pub record Entry : Type 0 where
  pub index : ℕ
  pub term : ℕ
  pub kind : EntryType
  pub data_of : Bytes

pub data ConfChangeType : Type 0 where
  conf_change_add_node conf_change_remove_node conf_change_other : ConfChangeType

pub record ConfChange : Type 0 where
  pub kind : ConfChangeType
  pub node_id : ℕ
  pub context : Bytes

-- The functions from outside the repository: hashes, ed25519, the growth of a slice's array, JSON
-- both ways, and the decoding of a change of the members.
pub record Outside : Type 0 where
  pub sha256 : Bytes → Bytes
  pub sha3 : Bytes → Bytes
  pub ed25519 : Bytes → Bytes → Bytes → Bool
  pub grow : ℕ → ℕ → ℕ
  pub tx_json : Transaction → Option Bytes
  pub tx_bytes : Transaction → Bytes
  pub blocks_json : Blocks → Option Bytes
  pub blocks_of : Bytes → Option Blocks
  pub conf_change_of : Bytes → ConfChange
  pub entries_of : Bytes → Option (List Entry)

-- The node's entries of the configuration.
pub record Config : Type 0 where
  pub id : ℕ
  pub addr : Bytes
  pub ds : Bytes
  pub cm : Bytes
  pub qtj : Bytes
  pub snap_count : ℕ

-- What happens outside the node while it commits an entry: the clock, whether badger takes the
-- commits, the contract database's answers, and what raft answers to a change of its members.
pub record Moment : Type 0 where
  pub now : ℕ
  pub commits_nonce : Transaction → Bool
  pub commits_block : Bool
  pub contracts : Contracts
  pub conf_state : List ℕ

-- What the node tells its transport and its raft.
pub data Call : Type 0 where
  add_remote add_peer : ℕ → Bytes → Call
  remove_peer : ℕ → Call
  transport_stop node_stop : Call

-- The fields of `raftNode` that change while it runs, with what its server holds: the pool, the chain
-- and the contract database, and what raft's log on disk and its storage in memory have for the
-- committed index. The keys of `id_peer` are identities of nodes.
pub record RaftNode (b : Badger) : Type 0 where
  pub committed_index : ℕ
  pub last_height : ℕ
  pub snapshot_index : ℕ
  pub wal_commit : ℕ
  pub hard_commit : ℕ
  pub pool : Pool
  pub chain : b.Txn
  pub tokens : Db
  pub conf_state : List ℕ
  pub peers : List Bytes
  pub id_peer : List (ℕ × Bytes)
  pub calls : List Call

-- `ToBytes` of a block: nil if it cannot be marshalled.
abbrev pub bytes_or_nil : Option Bytes → Bytes
bytes_or_nil none = []
bytes_or_nil (some text) = text
