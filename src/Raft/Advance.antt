-- ===== src/Raft/Advance.antt =====
-- How far a node advances in its log.
use raft_project.Common.{
  ℕ, suc, ◌+◌, ◌-◌, ◌^◌, ◌≤◌, ◌<◌, ◌≡◌, ◌≢◌, refl, ◌⊎◌, inl, inr, Bool, true, false, Option, none,
  some, List, [], ◌∷◌, arith,
}
use raft_project.Common.Tests.{leb, ◌==◌, Bool-cases}
use raft_project.Common.Lists.{length}
use raft_project.Common.Outcome.{Outcome, ok, err, panic, ◌>>=◌, ◌>>◌}
use raft_project.Store.{Badger}
use raft_project.Contract.Exec.{Db}
use raft_project.Chain.Block.{Blocks, AddBlockError, add_block}
use raft_project.Chain.Results.{Fault}
use raft_project.Raft.{
  Entry, EntryType, entry_normal, entry_conf_change, Outside, Config, Moment, RaftNode,
  bytes_or_nil,
}
use raft_project.Txpool.Verified.{verify_block}
use raft_project.Raft.Commit.{must, check_block, paired, commit_block, commit_entries}
use raft_project.Raft.Machine.{
  Replica, replica_of, apply_block, apply_kind, apply_entry, apply_entries, HasRemoval, Follows,
}
use raft_project.Raft.Machine.Refined.{commit_entries-Follows}

module _ (b : Badger) (o : Outside) (c : Config) where
  -- An entry that is empty, holds a block, or changes the members.
  abbrev pub IsReadable : Entry → EntryType → Type 0
  IsReadable e entry_normal = (e.data_of ≡ []) ⊎ (o.blocks_of e.data_of ≢ none)
  IsReadable e entry_conf_change = Unit

  -- Consecutive entries behind the index `i`, each of them readable.
  abbrev pub IsLog : ℕ → List Entry → Type 0
  IsLog i [] = Unit
  IsLog i (e ∷ es) = (e.index ≡ i + 1) × IsReadable e e.kind × IsLog (i + 1) es

  -- The machine has taken `n` entries from `r` on, each of which may have raised the height by one; or
  -- it has stopped.
  abbrev pub Took : ℕ → Replica b → Outcome Fault (Replica b) → Type 0
  Took n r (ok r') = (r'.index ≡ r.index + n) × (r.height ≤ r'.height) × (r'.height ≤ r.height + n)
  Took n r (err e) = ⊥
  Took n r panic = Unit

  -- A block is added with `Q`, or there is a panic.
  abbrev Added : Type 0 → Outcome Fault (Db × b.Txn) → Type 0
  Added Q (ok p) = Q
  Added Q (err e) = ⊥
  Added Q panic = Unit

  must-Added :
      (Q : Type 0) (x : Outcome Fault Bool) (k : Outcome Fault (Db × b.Txn))
      → Added Q k
      → Added Q (must x >> k)
  must-Added Q (ok true) k h = h
  must-Added Q (ok false) k h = tt
  must-Added Q (err x) k h = tt
  must-Added Q panic k h = tt

  paired-Added : (Q : Type 0) (r : Db × Outcome AddBlockError b.Txn) → Q → Added Q (paired b o c r)
  paired-Added Q (db, ok s) q = q
  paired-Added Q (db, err e) q = tt
  paired-Added Q (db, panic) q = tt

  commit_block-Added :
      (m : Moment) (last : ℕ) (db : Db) (s : b.Txn) (blk : Blocks)
      → Added (blk.height - last ≡ 1) (commit_block b o c m last db s blk)
  unfolding commit_block
  commit_block-Added m last db s blk = elim (Bool-cases (blk.height - last == 1)) [
    | inr other ↦ rw other tt
    | inl next ↦
        let Q : Type 0 = blk.height - last ≡ 1 in
        let verified =
          verify_block b o.grow o.sha256 o.ed25519 o.tx_bytes c.qtj m.commits_nonce s blk in
        let written =
          add_block b o.tx_json m.contracts (λ blk'. bytes_or_nil (o.blocks_json blk'))
            m.commits_block c.addr blk db verified.0 in
        rw next (
          must-Added Q (check_block b o c s db blk) (must verified.1 >> paired b o c written) (
            must-Added Q verified.1 (paired b o c written)
              (paired-Added Q written (ground (arith, next)))))
  ]

  extended-Took :
      (x : Outcome Fault (Db × b.Txn)) (i : ℕ) (r : Replica b) (blk : Blocks)
      → Added (blk.height - r.height ≡ 1) x
      → i ≡ r.index + 1
      → Took 1 r (
          x >>= λ new.
          ok (record { index = i; height = blk.height; tokens = new.0; chain = new.1 }))
  extended-Took (ok new) i r blk next e = (e, omega (arith, next), omega (arith, next))
  extended-Took (err x) i r blk next e = next
  extended-Took panic i r blk next e = tt

  block-Took :
      (m : Moment) (i : ℕ) (r : Replica b) (blk : Option Blocks)
      → i ≡ r.index + 1
      → r.index + 1 < 2 ^ 64
      → blk ≢ none
      → Took 1 r (apply_block b o c m i r blk)
  unfolding apply_block
  block-Took m i r none e small known = absurd (known refl)
  block-Took m i r (some blk) e small known = elim (Bool-cases (leb blk.height r.height)) [
    | inl stale ↦ rw stale (omega (arith, small), omega arith, omega arith)
    | inr above ↦ rw above (
        extended-Took (commit_block b o c m r.height r.tokens r.chain blk) i r blk
          (commit_block-Added m r.height r.tokens r.chain blk) e)
  ]

  kind-Took :
      (m : Moment) (e : Entry) (k : EntryType) (r : Replica b)
      → e.index ≡ r.index + 1
      → r.index + 1 < 2 ^ 64
      → (length e.data_of == 0) ≡ false
      → IsReadable e k
      → Took 1 r (apply_kind b o c m e k r)
  unfolding apply_kind
  kind-Took m e entry_normal r next small filled (inl empty) =
      let no_data : (length e.data_of == 0) ≡ true = rw empty refl in cc (no_data, filled)
  kind-Took m e entry_normal r next small filled (inr known) =
      block-Took m e.index r (o.blocks_of e.data_of) next small known
  kind-Took m e entry_conf_change r next small filled known = (next, omega arith, omega arith)

  entry-Took :
      (m : Moment) (e : Entry) (r : Replica b)
      → e.index ≡ r.index + 1
      → r.index + 1 < 2 ^ 64
      → IsReadable e e.kind
      → Took 1 r (apply_entry b o c m r e)
  unfolding apply_entry
  entry-Took m e r next small known =
      let new : leb e.index r.index ≡ false = ground (arith, next) in
      elim (Bool-cases (length e.data_of == 0)) [
        | inl empty ↦ rw (new, empty) (next, omega arith, omega arith)
        | inr filled ↦ rw (new, filled) (kind-Took m e e.kind r next small filled known)
      ]

  more :
      (n : ℕ) (r r' : Replica b) (y : Outcome Fault (Replica b))
      → Took 1 r (ok r')
      → Took n r' y
      → Took (suc n) r y
  more n r r' (ok r2) t u =
      (omega (arith, t.0, u.0), omega (arith, t.1, u.1), omega (arith, t.2, u.2))
  more n r r' (err e) t u = u
  more n r r' panic t u = u

  then-Took :
      (n : ℕ) (r : Replica b) (x : Outcome Fault (Replica b))
      (f : Replica b → Outcome Fault (Replica b))
      → Took 1 r x
      → ((r' : Replica b) → r'.index ≡ r.index + 1 → Took n r' (f r'))
      → Took (suc n) r (x >>= f)
  then-Took n r (ok r') f t next = more n r r' (f r') t (next r' t.0)
  then-Took n r (err e) f t next = absurd t
  then-Took n r panic f t next = tt

  apply_entries-Took :
      (at : ℕ → Moment) (es : List Entry) (r : Replica b)
      → IsLog r.index es
      → r.index + length es < 2 ^ 64
      → Took (length es) r (apply_entries b o c at r es)
  unfolding apply_entries
  apply_entries-Took at [] r log small = (omega arith, omega arith, omega arith)
  apply_entries-Took at (e ∷ es) r log small =
      then-Took (length es) r (apply_entry b o c (at e.index) r e)
        (λ r'. apply_entries b o c at r' es)
        (entry-Took (at e.index) e r log.0 (omega (arith, small)) log.1)
        (λ r' is. apply_entries-Took at es r' (rw is log.2) (omega (arith, is, small)))

  -- What a node has done of `n` entries, if it has not panicked.
  abbrev pub Advanced : ℕ → RaftNode b → Outcome Fault (RaftNode b) → Type 0
  Advanced n nd (ok nd') =
      (nd'.committed_index ≡ nd.committed_index + n)
      × (nd.last_height ≤ nd'.last_height)
      × (nd'.last_height ≤ nd.last_height + n)
  Advanced n nd (err e) = ⊥
  Advanced n nd panic = Unit

  same-Took :
      (n : ℕ) (r : Replica b) (y y' : Outcome Fault (Replica b)) → y ≡ y' → Took n r y → Took n r y'
  same-Took n r y y' e t = rw (← e) t

  followed-Advanced :
      (P : Type 0) (n : ℕ) (nd : RaftNode b) (x : Outcome Fault (RaftNode b))
      (y : Outcome Fault (Replica b))
      → Follows b o c P x y
      → Took n (replica_of b o c nd) y
      → Advanced n nd x
  followed-Advanced P n nd (ok nd') y f t =
      same-Took n (replica_of b o c nd) y (ok (replica_of b o c nd')) f t
  followed-Advanced P n nd (err e) y f t = same-Took n (replica_of b o c nd) y (err e) f t
  followed-Advanced P n nd panic y f t = tt

  -- Of consecutive entries behind its committed index, each of them empty, or a block that can be
  -- decoded, or a change of the members, a node commits all, unless it panics: the committed index
  -- is then the last entry's, and each entry has raised the last height by at most one. The last
  -- entry's index is below 2^64.
  pub commit_entries-Advanced :
      (at : ℕ → Moment) (es : List Entry) (nd : RaftNode b)
      → IsLog nd.committed_index es
      → nd.committed_index + length es < 2 ^ 64
      → Advanced (length es) nd (commit_entries b o c at nd es)
  commit_entries-Advanced at es nd log small =
      followed-Advanced (HasRemoval b o c es) (length es) nd (commit_entries b o c at nd es)
        (apply_entries b o c at (replica_of b o c nd) es) (commit_entries-Follows b o c at es nd)
        (apply_entries-Took at es (replica_of b o c nd) log small)
