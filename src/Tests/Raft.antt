-- ===== src/Tests/Raft.antt =====
-- The theorems on the raft node at concrete inputs.
use raft_project.Common.{
  ℕ, ◌+◌, ◌-◌, ◌^◌, ◌<◌, ◌≤◌, ◌≡◌, ◌≢◌, refl, Bool, true, false, Option, none, some, List, [], ◌∷◌,
  ◌++◌, inl, inr, arith,
}
use raft_project.Common.Tests.{◌==◌, if◌then◌else◌}
use raft_project.Common.Lists.{Bytes, codes, length, bytes_eq-false→ne}
use raft_project.Common.Outcome.{Outcome, ok, err, panic}
use raft_project.Common.Dict.{Dict}
use raft_project.Codec.{e64func}
use raft_project.Store.{not_exist}
use raft_project.Transaction.{Transaction}
use raft_project.Merkle.{new, get_mt_hash}
use raft_project.Chain.Block.{Blocks, Contracts}
use raft_project.Chain.Results.{Fault}
use raft_project.Chain.Distr.{MinerTx, shares, reward}
use raft_project.Txpool.{Pool}
use raft_project.Txpool.Verified.{verify_all, verify_block}
use raft_project.Txpool.Verified.Root.{verify_block-root}
use raft_project.Raft.{
  Entry, EntryType, entry_normal, entry_conf_change, ConfChange, conf_change_add_node, Outside,
  Config, Moment, RaftNode,
}
use raft_project.Raft.Members.{Peers}
use raft_project.Raft.Commit.{commit_entries}
use raft_project.Raft.Machine.{replica_of, apply_entries, HasRemoval, Follows}
use raft_project.Raft.Machine.Refined.{commit_entries-Follows}
use raft_project.Raft.Machine.Agreement.{Agree, commit_entries-Agree}
use raft_project.Raft.Machine.Growth.{Reach, AreNext, commit_entries-Reach}
use raft_project.Raft.Advance.{Advanced, commit_entries-Advanced}
use raft_project.Raft.Entries.{snap_entries_to_apply, from_index, snap_entries_to_apply_lem}
use raft_project.Raft.Ready.{Ready, Storage, handle_ready, restarted, handle_ready-restarted}
use raft_project.Raft.Cluster.{
  raft_add_node, raft_remove_node, Refusal, id_missing, node_management, node_management_lem,
}
use raft_project.Tests.Store.{disk}
use raft_project.Tests.Pool.{sent, zeros}

abbrev miner : Bytes
miner = codes "Kto211111111111111111111111111111111111111111111"

abbrev shop : Bytes
shop = codes "Kto11111111111111111111111111111111"

abbrev unsigned : Bytes → Bytes → Bytes → Bool
unsigned key hash signature = false

-- The first block after the sixth.
abbrev seventh : Blocks
seventh = record {
  height = 7;
  prev_block_hash = [];
  txs = [];
  root = [];
  version = 1;
  timestamp = 5;
  hash = codes "b";
  miner = miner;
  res = [];
  first_tx = shares unsigned [] miner shop shop zeros (reward 7);
}

abbrev added_node : ConfChange
added_node = record { kind = conf_change_add_node; node_id = 4; context = codes "d" }

abbrev outside : Outside
outside = record {
  sha256 = λ x. x;
  sha3 = λ x. x;
  ed25519 = unsigned;
  grow = λ cap n. n;
  tx_json = λ tx. some [];
  tx_bytes = λ tx. codes "x";
  blocks_json = λ blk. some [];
  blocks_of = λ text. if length text == 1 then some seventh else none;
  conf_change_of = λ text. added_node;
  entries_of = λ text. none;
}

abbrev config : Config
config = record { id = 1; addr = miner; ds = shop; cm = shop; qtj = shop; snap_count = 100 }

-- The second node of the cluster, which pays fees to the same address.
abbrev other_config : Config
other_config = record config { id = 2; snap_count = 5 }

abbrev moment : ℕ → ℕ → Moment
moment now i = record {
  now = now;
  commits_nonce = λ tx. true;
  commits_block = true;
  contracts = record { accepts = λ k v. true; commits = true };
  conf_state = 1 ∷ [];
}

abbrev sixth : Dict Bytes
unfolding e64func
sixth = (codes "height", e64func 6) ∷ []

abbrev node : List Transaction → RaftNode disk
node pooled = record {
  committed_index = 0;
  last_height = 6;
  snapshot_index = 0;
  wal_commit = 0;
  hard_commit = 0;
  pool = record { list = pooled; pending = [] };
  chain = sixth;
  tokens = λ k. not_exist;
  conf_state = [];
  peers = codes "a" ∷ [];
  id_peer = (1, codes "a") ∷ [];
  calls = [];
}

-- An empty entry, a block, a new member, and the block once more.
abbrev log : List Entry
log =
    record { index = 1; term = 1; kind = entry_normal; data_of = [] }
    ∷ record { index = 2; term = 1; kind = entry_normal; data_of = 1 ∷ [] }
    ∷ record { index = 3; term = 1; kind = entry_conf_change; data_of = 4 ∷ (4 ∷ []) }
    ∷ record { index = 4; term = 2; kind = entry_normal; data_of = 1 ∷ [] }
    ∷ []

commit_entries-Follows_example :
    Follows disk outside config
      (HasRemoval disk outside config log)
      (commit_entries disk outside config (moment 5) (node []) log)
      (apply_entries disk outside config (moment 5) (replica_of disk outside config (node [])) log)
commit_entries-Follows_example = commit_entries-Follows disk outside config (moment 5) log (node [])

commit_entries-Agree_example :
    Agree disk outside config other_config
      (HasRemoval disk outside config log)
      (commit_entries disk outside config (moment 5) (node []) log)
      (commit_entries disk outside other_config (moment 9) (node (sent 1 8 ∷ [])) log)
commit_entries-Agree_example =
    commit_entries-Agree disk outside config other_config (2, 5, refl) (moment 5) (moment 9) log
      (node []) (node (sent 1 8 ∷ [])) (λ i. (9, 1 ∷ [], refl)) refl

commit_entries-Advanced_example :
    Advanced disk outside config 4
      (node [])
      (commit_entries disk outside config (moment 5) (node []) log)
commit_entries-Advanced_example =
    commit_entries-Advanced disk outside config (moment 5) log (node [])
      (
        omega arith,
        inl refl,
        (omega arith, inr (λ e. cc e), (omega arith, tt, (omega arith, inr (λ e. cc e), tt))),
      )
      (omega arith)

abbrev node_or : RaftNode disk → Outcome Fault (RaftNode disk) → RaftNode disk
node_or nd (ok nd') = nd'
node_or nd (err e) = nd
node_or nd panic = nd

abbrev after : RaftNode disk
after = node_or (node []) (commit_entries disk outside config (moment 5) (node []) log)

commit_entries-Reach_example :
    (bs : List Blocks) × Reach disk outside config
      (replica_of disk outside config (node []))
      bs
      (replica_of disk outside config after)
    × AreNext 6 bs
    × (after.last_height ≡ 6 + length bs)
unfolding commit_entries raft_project.Raft.Commit.commit_entry raft_project.Raft.Commit.commit_new
    raft_project.Raft.Commit.commit_block raft_project.Raft.Commit.check_block
    raft_project.Txpool.filter raft_project.Txpool.without_all raft_project.Txpool.pop_rounds
    raft_project.Txpool.push_fresh raft_project.Chain.Results.check_results
    raft_project.Chain.Results.check_transactions raft_project.Chain.Results.calculation_results
    raft_project.Chain.Results.calculate raft_project.Chain.Results.blocks_change
    raft_project.Chain.Results.results_map raft_project.Chain.Results.same_payments
    raft_project.Chain.Results.payments raft_project.Chain.Distr.distr
    raft_project.Base58.addr_to_pub raft_project.Base58.big_bytes raft_project.Base58.decode
    raft_project.Base58.decode_digits raft_project.Base58.digit raft_project.Base58.leading_ones
    raft_project.Chain.Distr.count_orders raft_project.Chain.Distr.has_order
    raft_project.Chain.Distr.is_signed raft_project.Chain.Distr.lowered
    raft_project.Chain.Distr.order_shares reward shares raft_project.Chain.Distr.some_signed
    verify_block raft_project.Txpool.Verified.verify_txs raft_project.Chain.Block.add_block
    raft_project.Chain.Block.add_header raft_project.Chain.Block.pay_miners
    raft_project.Chain.Block.add_transactions raft_project.Chain.set_miner_account
    raft_project.Chain.opened raft_project.Chain.set_balance raft_project.Chain.keep
    raft_project.Chain.is_value raft_project.Chain.fetched_u64 raft_project.Chain.u64_or_zero
    raft_project.Store.mset raft_project.Store.e_map_key e64func raft_project.Codec.e32func
    raft_project.Codec.le_encode raft_project.Codec.le_decode raft_project.Common.Dict.lookup
    raft_project.Common.Dict.insert raft_project.Common.Dict.erase
    raft_project.Common.Lists.bytes_eq raft_project.Raft.Members.apply_conf_change
    raft_project.Raft.Members.change_members raft_project.Raft.Members.update_cluster_info
    raft_project.Raft.Members.peer_of sixth
commit_entries-Reach_example =
    commit_entries-Reach disk outside config (moment 5) log (node []) after refl

snap_entries_to_apply_lem_example : snap_entries_to_apply 3 log ≡ ok (from_index 3 log)
snap_entries_to_apply_lem_example =
    snap_entries_to_apply_lem 3 (record { index = 1; term = 1; kind = entry_normal; data_of = [] })
      (record { index = 2; term = 1; kind = entry_normal; data_of = 1 ∷ [] }
        ∷ record { index = 3; term = 1; kind = entry_conf_change; data_of = 4 ∷ (4 ∷ []) }
        ∷ record { index = 4; term = 2; kind = entry_normal; data_of = 1 ∷ [] }
        ∷ [])
      (refl, (refl, (refl, (refl, tt))))

-- Four entries are committed in the cluster, none of which the node has been given yet.
abbrev ready : Ready
ready = record { committed = []; commit = some 4 }

abbrev writable : Storage
writable = record {
  wal_saved = true;
  entries_read = true;
  created = true;
  snap_saved = true;
  compacted = true;
}

abbrev behind : RaftNode disk
behind = record (node []) { wal_commit = 4; hard_commit = 0 }

handle_ready-restarted_example :
    (behind.hard_commit ≤ behind.committed_index)
    × ((restarted disk behind).committed_index ≡ 4)
    × (commit_entries disk outside config (moment 9) (restarted disk behind) log
        ≡ ok (restarted disk behind))
unfolding handle_ready raft_project.Raft.Ready.snapshot_if_due commit_entries
handle_ready-restarted_example =
    handle_ready-restarted disk outside config (moment 5) (moment 9) writable ready 4 (node [])
      behind log refl refl refl (omega arith, (omega arith, (omega arith, (omega arith, tt))))

abbrev members : Peers
members = (1, codes "a") ∷ (2, codes "c") ∷ []

node_management_lem_example :
    (raft_project.Raft.Members.peer_of 2 members ≡ some (codes "c")
      → (r : Refusal) × (node_management
            (λ s. s)
            true
            members
            (record { kind = raft_add_node; id = 2; peer = codes "d" })
          ≡ (
            some r,
            some (record { kind = conf_change_add_node; node_id = 2; context = codes "d" }),
          )))
    × (raft_project.Raft.Members.peer_of 2 members ≡ none
        → node_management
            (λ s. s)
            true
            members
            (record { kind = raft_remove_node; id = 2; peer = codes "d" })
          ≡ (some id_missing, none))
node_management_lem_example = node_management_lem (λ s. s) members 2 (codes "d") (codes "c")

-- A block whose root is not its transactions'.
abbrev misrooted : Blocks
misrooted = record seventh { txs = sent 1 8 ∷ []; root = codes "r" }

verify_block-root_example :
    verify_block disk
      (λ cap n. n)
      (λ x. 1 ∷ x)
      unsigned
      (λ tx. codes "x")
      shop
      (λ tx. true)
      sixth
      misrooted
    ≡ verify_all disk
        (λ cap n. n)
        (λ x. 1 ∷ x)
        unsigned
        (λ tx. codes "x")
        shop
        (λ tx. true)
        sixth
        misrooted.txs
unfolding new raft_project.Merkle.mk_merkle_tree_root raft_project.Merkle.first_leaf
    raft_project.Merkle.mk_leaf get_mt_hash raft_project.Chain.Queries.texts
    raft_project.Common.Lists.bytes_eq
verify_block-root_example =
    verify_block-root disk (λ cap n. n) (λ x. 1 ∷ x) unsigned (λ tx. codes "x") shop (λ tx. true)
      sixth misrooted (sent 1 8) [] (1 ∷ codes "x") refl (bytes_eq-false→ne (codes "x") [] refl, tt)
      (bytes_eq-false→ne (codes "r") [] refl)
      (bytes_eq-false→ne (1 ∷ codes "x") (1 ∷ codes "r") refl, tt) refl
      (bytes_eq-false→ne (1 ∷ codes "r") (1 ∷ codes "x") refl)
