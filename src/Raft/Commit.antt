-- ===== src/Raft/Commit.antt =====
-- `commitEntries` of raftconsensus/node.go, with `checkBlock`.
use raft_project.Common.{
  ℕ, ◌+◌, ◌-◌, ◌%◌, ◌^◌, Bool, true, false, Option, none, some, List, [], ◌∷◌,
}
use raft_project.Common.Tests.{leb, ◌==◌, if◌then◌else◌}
use raft_project.Common.Lists.{length}
use raft_project.Common.Outcome.{Outcome, ok, err, panic, ◌>>=◌, ◌>>◌}
use raft_project.Store.{Badger}
use raft_project.Contract.Exec.{Db}
use raft_project.Chain.Block.{Blocks, AddBlockError, add_block}
use raft_project.Chain.Results.{Fault, check_results}
use raft_project.Txpool.{filter}
use raft_project.Txpool.Verified.{verify_block}
use raft_project.Raft.{
  Entry, EntryType, entry_normal, entry_conf_change, Outside, Config, Moment, RaftNode,
  bytes_or_nil,
}
use raft_project.Raft.Members.{apply_conf_change}

abbrev pub must : Outcome Fault Bool → Outcome Fault (Unit {0})
must (ok true) = ok tt
must (ok false) = panic
must (err e) = panic
must panic = panic

abbrev pub or_stop : {E A : Type 0} → Outcome E A → Outcome Fault A
or_stop (ok a) = ok a
or_stop (err e) = panic
or_stop panic = panic

module _ (b : Badger) (o : Outside) (c : Config) where
  open b use {Txn}

  -- `checkBlock`
  unfoldable pub check_block : Txn → Db → Blocks → Outcome Fault Bool
  check_block s db blk = check_results b o.sha3 o.ed25519 s db blk c.ds c.cm c.qtj

  abbrev pub paired : Db × Outcome AddBlockError Txn → Outcome Fault (Db × Txn)
  paired (db, ok s) = ok (db, s)
  paired (db, err e) = panic
  paired (db, panic) = panic

  -- What is done with a block above the last height: the two checks and `CommitBlock`. What fails is
  -- a panic.
  unfoldable pub commit_block : Moment → ℕ → Db → Txn → Blocks → Outcome Fault (Db × Txn)
  commit_block m last db s blk =
      let verified =
        verify_block b o.grow o.sha256 o.ed25519 o.tx_bytes c.qtj m.commits_nonce s blk in
      let next = (do
        must (check_block s db blk)
        must verified.1
        paired (
            add_block b o.tx_json m.contracts (λ blk. bytes_or_nil (o.blocks_json blk))
              m.commits_block c.addr blk db verified.0)) in
      if blk.height - last == 1 then next else panic

  abbrev pub reached : ℕ → RaftNode b → RaftNode b
  reached i nd = record nd { committed_index = i }

  -- A block from the log, and whether the loop's body is run to its end.
  unfoldable pub commit_new : Moment → RaftNode b → Blocks → Outcome Fault (Bool × RaftNode b)
  commit_new m nd blk =
      let next = commit_block m nd.last_height nd.tokens nd.chain blk >>= λ r.
      ok (true, record nd { tokens = r.0; chain = r.1; last_height = blk.height }) in
      if leb blk.height nd.last_height
      then ok (false, reached ((nd.committed_index + 1) % 2 ^ 64) nd)
      else next

  abbrev pub commit_decoded :
      Moment → RaftNode b → Option Blocks → Outcome Fault (Bool × RaftNode b)
  commit_decoded m nd none = ok (false, nd)
  commit_decoded m nd (some blk) =
      or_stop (filter nd.pool blk.txs m.now) >>= λ p. commit_new m (record nd { pool = p }) blk

  abbrev pub at_end : ℕ → Bool × RaftNode b → RaftNode b
  at_end i (true, nd) = reached i nd
  at_end i (false, nd) = nd

  -- The body of the loop for an entry with data.
  abbrev pub commit_kind :
      Moment → RaftNode b → Entry → EntryType → Outcome Fault (Bool × RaftNode b)
  commit_kind m nd e entry_normal = commit_decoded m nd (o.blocks_of e.data_of)
  commit_kind m nd e entry_conf_change =
      or_stop (apply_conf_change b c.id m.conf_state (o.conf_change_of e.data_of) nd) >>= λ nd'.
      ok (true, nd')

  unfoldable pub commit_entry : Moment → RaftNode b → Entry → Outcome Fault (RaftNode b)
  commit_entry m nd e =
      let body = commit_kind m nd e e.kind >>= λ r. ok (at_end e.index r) in
      if leb e.index nd.committed_index
      then ok nd
      else if length e.data_of == 0
      then ok (reached e.index nd)
      else body

  -- `commitEntries`, with what happens while the entry of an index is committed.
  unfoldable pub commit_entries :
      (ℕ → Moment) → RaftNode b → List Entry → Outcome Fault (RaftNode b)
  commit_entries at nd [] = ok nd
  commit_entries at nd (e ∷ es) = commit_entry (at e.index) nd e >>= λ nd'. commit_entries at nd' es
