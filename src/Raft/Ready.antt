-- ===== src/Raft/Ready.antt =====
-- What `handleChanel` of raftconsensus/node.go does with what raft has ready, after a snapshot from the
-- leader if there is one; `maybeTriggerSnapshot`; and the committed index after a restart, of `readWAL`.
use raft_project.Common.{
  ℕ, ◌-◌, ◌%◌, ◌≤◌, ◌≡◌, refl, sym, ap, ◌∙◌, inl, inr, Bool, true, false, ◌&&◌, Option, none, some,
  List, arith,
}
use raft_project.Common.Tests.{ltb, leb, ◌==◌, if◌then◌else◌, Bool-cases}
use raft_project.Common.Lists.{All}
use raft_project.Common.Outcome.{Outcome, ok, panic, ◌>>=◌, gave}
use raft_project.Store.{Badger}
use raft_project.Chain.Results.{Fault}
use raft_project.Raft.{Entry, Outside, Config, Moment, RaftNode}
use raft_project.Raft.Commit.{commit_entries}
use raft_project.Raft.Replay.{replay_none}

-- What raft has ready: entries that are committed, and the commit of its hard state unless that is
-- empty.
pub record Ready : Type 0 where
  pub committed : List Entry
  pub commit : Option ℕ

-- What raft's storages answer: whether the log on disk is written, and whether a snapshot's entries are
-- read, and it is made, saved, and the log compacted.
pub record Storage : Type 0 where
  pub wal_saved : Bool
  pub entries_read : Bool
  pub created : Bool
  pub snap_saved : Bool
  pub compacted : Bool

module _ (b : Badger) where
  -- `maybeTriggerSnapshot`; its errors are only logged.
  unfoldable pub maybe_trigger_snapshot : Storage → ℕ → RaftNode b → RaftNode b
  maybe_trigger_snapshot st app_index nd =
      if st.entries_read && (st.created && (st.snap_saved && st.compacted))
      then record nd { snapshot_index = app_index }
      else nd

  -- A snapshot after every `snap_count` indices; the offset's remainder panics for 0.
  unfoldable pub snapshot_if_due : Config → Storage → RaftNode b → Outcome Fault (RaftNode b)
  snapshot_if_due c st nd =
      let offset = nd.committed_index % c.snap_count in
      let made = maybe_trigger_snapshot st (nd.committed_index - offset) nd in
      if ltb nd.snapshot_index nd.committed_index
        && leb c.snap_count (nd.committed_index - nd.snapshot_index)
      then (if c.snap_count == 0 then panic else ok made)
      else ok nd

  -- The log on disk gets the hard state as raft gives it, the storage in memory has its commit lowered
  -- to the committed index.
  abbrev pub with_hard_state : Storage → Option ℕ → RaftNode b → RaftNode b
  with_hard_state st none nd = nd
  with_hard_state st (some commit) nd = record nd {
    wal_commit = if st.wal_saved then commit else nd.wal_commit;
    hard_commit = if ltb nd.committed_index commit then nd.committed_index else commit;
  }

  unfoldable pub handle_ready :
      Outside → Config → (ℕ → Moment) → Storage → Ready → RaftNode b → Outcome Fault (RaftNode b)
  handle_ready o c at st rd nd = commit_entries b o c at nd rd.committed >>= λ nd'.
      snapshot_if_due c st (with_hard_state st rd.commit nd')

  -- `readWAL`
  unfoldable pub restarted : RaftNode b → RaftNode b
  restarted nd = record nd { committed_index = nd.wal_commit; hard_commit = nd.wal_commit }

  maybe_trigger_snapshot_lem :
      (st : Storage) (j : ℕ) (nd : RaftNode b)
      → (i : ℕ) × (maybe_trigger_snapshot st j nd ≡ record nd { snapshot_index = i })
  unfolding maybe_trigger_snapshot
  maybe_trigger_snapshot_lem st j nd =
      elim (Bool-cases (st.entries_read && (st.created && (st.snap_saved && st.compacted)))) [
        | inl all ↦ (j, rw all refl)
        | inr some_not ↦ (nd.snapshot_index, rw some_not refl)
      ]

  if_due :
      (due zero_count : Bool) (made nd nd' : RaftNode b) (i : ℕ)
      → made ≡ record nd { snapshot_index = i }
      → ◌≡◌ {A = Outcome Fault (RaftNode b)}
          (if due then (if zero_count then panic else ok made) else ok nd)
          (ok nd')
      → (j : ℕ) × (nd' ≡ record nd { snapshot_index = j })
  if_due true true made nd nd' i e h = cc h
  if_due true false made nd nd' i e h = let same : made ≡ nd' = cc h in (i, sym same ∙ e)
  if_due false zero_count made nd nd' i e h =
      let same : nd ≡ nd' = cc h in (nd.snapshot_index, sym same)

  -- Of the node a snapshot changes its index alone.
  snapshot_if_due_lem :
      (c : Config) (st : Storage) (nd nd' : RaftNode b)
      → snapshot_if_due c st nd ≡ ok nd'
      → (i : ℕ) × (nd' ≡ record nd { snapshot_index = i })
  unfolding snapshot_if_due
  snapshot_if_due_lem c st nd nd' h =
      let j = nd.committed_index - nd.committed_index % c.snap_count in
      let (i, e) = maybe_trigger_snapshot_lem st j nd in
      if_due
        (ltb nd.snapshot_index nd.committed_index
          && leb c.snap_count (nd.committed_index - nd.snapshot_index))
        (c.snap_count == 0) (maybe_trigger_snapshot st j nd) nd nd' i e h

  -- A node that has handled what raft has ready keeps no commit in memory above its committed index, but
  -- on disk it has raft's. When it is restarted from there, it passes over all entries up to that commit,
  -- those among them that it has not committed too.
  pub handle_ready-restarted :
      (o : Outside) (c : Config) (at at' : ℕ → Moment) (st : Storage) (rd : Ready) (commit : ℕ)
      (nd nd' : RaftNode b) (es : List Entry)
      → handle_ready o c at st rd nd ≡ ok nd'
      → rd.commit ≡ some commit
      → st.wal_saved ≡ true
      → All (λ e. e.index ≤ commit) es
      → (nd'.hard_commit ≤ nd'.committed_index)
        × ((restarted nd').committed_index ≡ commit)
        × (commit_entries b o c at' (restarted nd') es ≡ ok (restarted nd'))
  unfolding handle_ready restarted
  handle_ready-restarted o c at at' st rd commit nd nd' es h e saved old =
      let (nd1, committed, rest) =
        gave (λ nd1. snapshot_if_due c st (with_hard_state st rd.commit nd1)) nd'
          (commit_entries b o c at nd rd.committed) h in
      let (i, is) = snapshot_if_due_lem c st (with_hard_state st rd.commit nd1) nd' rest in
      let known : with_hard_state st rd.commit nd1 ≡ with_hard_state st (some commit) nd1 =
        rw e refl in
      let same : nd' ≡ record (with_hard_state st (some commit) nd1) { snapshot_index = i } =
        is ∙ rw known refl in
      let on_disk : nd'.wal_commit ≡ commit = ap (λ n. n.wal_commit) same ∙ rw saved refl in
      let low : nd'.hard_commit ≤ nd'.committed_index = rw same (ground arith) in
      (low, on_disk, replay_none b o c at' es (restarted nd') (rw on_disk old))
