-- ===== src/Raft/Machine/Growth.antt =====
-- The chain of a node grows by one checked block at a time.
use raft_project.Common.{
  ℕ, ◌+◌, ◌-◌, ◌%◌, ◌^◌, ◌≡◌, refl, inl, inr, Bool, true, false, Option, none, some, List, [], ◌∷◌,
  ◌++◌, arith,
}
use raft_project.Common.Tests.{leb, ◌==◌, if◌then◌else◌, Bool-cases}
use raft_project.Common.Lists.{length, length-append}
use raft_project.Common.Outcome.{Outcome, ok, err, panic, ◌>>=◌, ◌>>◌}
use raft_project.Store.{Badger}
use raft_project.Contract.Exec.{Db}
use raft_project.Chain.Block.{Blocks, AddBlockError, add_block}
use raft_project.Chain.Results.{Fault}
use raft_project.Txpool.Verified.{verify_block}
use raft_project.Raft.{
  Entry, EntryType, entry_normal, entry_conf_change, Outside, Config, Moment, RaftNode,
  bytes_or_nil,
}
use raft_project.Raft.Commit.{must, check_block, paired, commit_block, commit_entries}
use raft_project.Raft.Machine.{
  Replica, replica_of, at_index, apply_block, apply_kind, apply_entry, apply_entries, HasRemoval,
  Follows,
}
use raft_project.Raft.Machine.Refined.{commit_entries-Follows}

-- A block that extends the ledger: it is one above the last, its balances and its transactions pass
-- the checks on the chain that it is added to, and it is added.
pub data Extends (b : Badger) (o : Outside) (c : Config)
    : Replica b → Blocks → Replica b → Type 0 where
  extends :
      (m : Moment) (r r' : Replica b) (blk : Blocks) (s : b.Txn)
      → blk.height ≡ r.height + 1
      → r'.height ≡ blk.height
      → check_block b o c r.chain r.tokens blk ≡ ok true
      → verify_block b o.grow o.sha256 o.ed25519 o.tx_bytes c.qtj m.commits_nonce r.chain blk
        ≡ (s, ok true)
      → add_block b o.tx_json m.contracts
          (λ blk'. bytes_or_nil (o.blocks_json blk'))
          m.commits_block
          c.addr
          blk
          r.tokens
          s
        ≡ (r'.tokens, ok r'.chain)
      → Extends b o c r blk r'

-- The ledgers that are reached from one, with the blocks that lead there.
pub data Reach (b : Badger) (o : Outside) (c : Config) (r : Replica b)
    : List Blocks → Replica b → Type 0 where
  here : Reach b o c r [] r
  moved :
      {bs : List Blocks} {r' : Replica b} (i : ℕ)
      → Reach b o c r bs r'
      → Reach b o c r bs (at_index b o c i r')
  grown :
      {bs : List Blocks} {r' r2 : Replica b} {blk : Blocks}
      → Reach b o c r bs r'
      → Extends b o c r' blk r2
      → Reach b o c r (bs ++ blk ∷ []) r2

-- The heights of the blocks go on from `h`, one after the other.
abbrev pub AreNext : ℕ → List Blocks → Type 0
AreNext h [] = Unit
AreNext h (blk ∷ bs) = (blk.height ≡ h + 1) × AreNext (h + 1) bs

AreNext-append :
    (h : ℕ) (bs : List Blocks) (blk : Blocks)
    → AreNext h bs
    → blk.height ≡ h + length bs + 1
    → AreNext h (bs ++ blk ∷ [])
AreNext-append h [] blk next e = (omega (arith, e), tt)
AreNext-append h (x ∷ bs) blk next e =
    (next.0, AreNext-append (h + 1) bs blk next.1 (omega (arith, e)))

module _ (b : Badger) (o : Outside) (c : Config) where
  Extends-height :
      {r r' : Replica b} {blk : Blocks}
      → Extends b o c r blk r'
      → (blk.height ≡ r.height + 1) × (r'.height ≡ blk.height)
  Extends-height (extends m r r' blk s next same checked verified added) = (next, same)

  Reach-AreNext :
      {r r' : Replica b} {bs : List Blocks}
      → Reach b o c r bs r'
      → AreNext r.height bs × (r'.height ≡ r.height + length bs)
  Reach-AreNext here = (tt, omega arith)
  Reach-AreNext (moved i before) = Reach-AreNext before
  Reach-AreNext {r} (grown {bs} {r'} {r2} {blk} before step) =
      let (next, height) = Reach-AreNext before in
      let (above, same) = Extends-height step in
      (
        AreNext-append r.height bs blk next (omega (arith, above, height)),
        omega (arith, above, same, height, length-append bs (blk ∷ [])),
      )

  must_passed :
      (x : Outcome Fault Bool) (k : Outcome Fault (Db × b.Txn)) (p : Db × b.Txn)
      → (must x >> k) ≡ ok p
      → (x ≡ ok true) × (k ≡ ok p)
  must_passed (ok true) k p h = (refl, h)
  must_passed (ok false) k p h = cc h
  must_passed (err e) k p h = cc h
  must_passed panic k p h = cc h

  paired_passed :
      (w : Db × Outcome AddBlockError b.Txn) (p : Db × b.Txn)
      → paired b o c w ≡ ok p
      → w ≡ (p.0, ok p.1)
  paired_passed (db, ok s) p h = let same : (db, s) ≡ p = cc h in rw (← same) refl
  paired_passed (db, err e) p h = cc h
  paired_passed (db, panic) p h = cc h

  chosen :
      (t : Bool) (x : Outcome Fault (Db × b.Txn)) (p : Db × b.Txn)
      → (if t then x else panic) ≡ ok p
      → (t ≡ true) × (x ≡ ok p)
  chosen true x p h = (refl, h)
  chosen false x p h = cc h

  commit_block-Extends :
      (m : Moment) (i : ℕ) (r : Replica b) (blk : Blocks) (p : Db × b.Txn)
      → commit_block b o c m r.height r.tokens r.chain blk ≡ ok p
      → Extends b o c r blk (record { index = i; height = blk.height; tokens = p.0; chain = p.1 })
  unfolding commit_block
  commit_block-Extends m i r blk p h =
      let verified =
        verify_block b o.grow o.sha256 o.ed25519 o.tx_bytes c.qtj m.commits_nonce r.chain blk in
      let written =
        add_block b o.tx_json m.contracts (λ blk'. bytes_or_nil (o.blocks_json blk'))
          m.commits_block c.addr blk r.tokens verified.0 in
      let rest = must verified.1 >> paired b o c written in
      let (next, h1) =
        chosen (blk.height - r.height == 1) (must (check_block b o c r.chain r.tokens blk) >> rest)
          p h in
      let (checked, h2) = must_passed (check_block b o c r.chain r.tokens blk) rest p h1 in
      let (sound, h3) = must_passed verified.1 (paired b o c written) p h2 in
      extends m r (record { index = i; height = blk.height; tokens = p.0; chain = p.1 }) blk
        verified.0 (ground (arith, next)) refl checked (rw (← sound) refl)
        (paired_passed written p h3)

  -- Where an outcome is a ledger, it has been reached from `r`.
  abbrev pub Grew : Replica b → Outcome Fault (Replica b) → Type 0
  Grew r (ok r') = (bs : List Blocks) × Reach b o c r bs r'
  Grew r (err e) = Unit
  Grew r panic = Unit

  block-Grew :
      (m : Moment) (i : ℕ) (r0 r : Replica b) (bs : List Blocks) (blk : Blocks)
      (x : Outcome Fault (Db × b.Txn))
      → commit_block b o c m r.height r.tokens r.chain blk ≡ x
      → Reach b o c r0 bs r
      → Grew r0 (
          x >>= λ new.
          ok (record { index = i; height = blk.height; tokens = new.0; chain = new.1 }))
  block-Grew m i r0 r bs blk (ok p) e reach =
      (bs ++ blk ∷ [], grown reach (commit_block-Extends m i r blk p e))
  block-Grew m i r0 r bs blk (err x) e reach = tt
  block-Grew m i r0 r bs blk panic e reach = tt

  decoded-Grew :
      (m : Moment) (i : ℕ) (r0 r : Replica b) (bs : List Blocks) (blk : Option Blocks)
      → Reach b o c r0 bs r
      → Grew r0 (apply_block b o c m i r blk)
  unfolding apply_block
  decoded-Grew m i r0 r bs none reach = (bs, reach)
  decoded-Grew m i r0 r bs (some blk) reach = elim (Bool-cases (leb blk.height r.height)) [
    | inl stale ↦ rw stale (bs, moved ((r.index + 1) % 2 ^ 64) reach)
    | inr above ↦
        rw above (
          block-Grew m i r0 r bs blk (commit_block b o c m r.height r.tokens r.chain blk) refl
            reach)
  ]

  kind-Grew :
      (m : Moment) (e : Entry) (k : EntryType) (r0 r : Replica b) (bs : List Blocks)
      → Reach b o c r0 bs r
      → Grew r0 (apply_kind b o c m e k r)
  unfolding apply_kind
  kind-Grew m e entry_normal r0 r bs reach =
      decoded-Grew m e.index r0 r bs (o.blocks_of e.data_of) reach
  kind-Grew m e entry_conf_change r0 r bs reach = (bs, moved e.index reach)

  entry-Grew :
      (m : Moment) (e : Entry) (r0 r : Replica b) (bs : List Blocks)
      → Reach b o c r0 bs r
      → Grew r0 (apply_entry b o c m r e)
  unfolding apply_entry
  entry-Grew m e r0 r bs reach = elim (Bool-cases (leb e.index r.index)) [
    | inl old ↦ rw old (bs, reach)
    | inr new ↦ elim (Bool-cases (length e.data_of == 0)) [
      | inl empty ↦ rw (new, empty) (bs, moved e.index reach)
      | inr filled ↦ rw (new, filled) (kind-Grew m e e.kind r0 r bs reach)
    ]
  ]

  rest-Grew :
      (r0 : Replica b) (x : Outcome Fault (Replica b)) (f : Replica b → Outcome Fault (Replica b))
      → Grew r0 x
      → ((r : Replica b) (bs : List Blocks) → Reach b o c r0 bs r → Grew r0 (f r))
      → Grew r0 (x >>= f)
  rest-Grew r0 (ok r) f (bs, reach) next = next r bs reach
  rest-Grew r0 (err e) f g next = tt
  rest-Grew r0 panic f g next = tt

  apply_entries-Grew :
      (at : ℕ → Moment) (es : List Entry) (r0 r : Replica b) (bs : List Blocks)
      → Reach b o c r0 bs r
      → Grew r0 (apply_entries b o c at r es)
  unfolding apply_entries
  apply_entries-Grew at [] r0 r bs reach = (bs, reach)
  apply_entries-Grew at (e ∷ es) r0 r bs reach =
      rest-Grew r0 (apply_entry b o c (at e.index) r e) (λ r'. apply_entries b o c at r' es)
        (entry-Grew (at e.index) e r0 r bs reach)
        (λ r' cs before. apply_entries-Grew at es r0 r' cs before)

  followed_ok :
      (P : Type 0) (x : Outcome Fault (RaftNode b)) (nd : RaftNode b)
      (y : Outcome Fault (Replica b))
      → x ≡ ok nd
      → Follows b o c P x y
      → y ≡ ok (replica_of b o c nd)
  followed_ok P (ok nd1) nd y e f = let same : nd1 ≡ nd = cc e in rw (f, same) refl
  followed_ok P (err x) nd y e f = cc e
  followed_ok P panic nd y e f = cc e

  at-Grew :
      (r0 r : Replica b) (y : Outcome Fault (Replica b))
      → y ≡ ok r
      → Grew r0 y
      → (bs : List Blocks) × Reach b o c r0 bs r
  at-Grew r0 r (ok r') e (bs, reach) = let same : r' ≡ r = cc e in (bs, rw (← same) reach)
  at-Grew r0 r (err x) e g = cc e
  at-Grew r0 r panic e g = cc e

  -- What a node that commits entries adds to its chain are blocks that pass its checks, each on the chain
  -- that the one before has left: their heights follow its last height one by one, and the last of them
  -- is its last height afterwards.
  pub commit_entries-Reach :
      (at : ℕ → Moment) (es : List Entry) (nd nd' : RaftNode b)
      → commit_entries b o c at nd es ≡ ok nd'
      → (bs : List Blocks) × Reach b o c (replica_of b o c nd) bs (replica_of b o c nd')
        × AreNext nd.last_height bs
        × (nd'.last_height ≡ nd.last_height + length bs)
  commit_entries-Reach at es nd nd' done =
      let same =
        followed_ok (HasRemoval b o c es) (commit_entries b o c at nd es) nd'
          (apply_entries b o c at (replica_of b o c nd) es) done
          (commit_entries-Follows b o c at es nd) in
      let (bs, reach) =
        at-Grew (replica_of b o c nd) (replica_of b o c nd')
          (apply_entries b o c at (replica_of b o c nd) es) same
          (apply_entries-Grew at es (replica_of b o c nd) (replica_of b o c nd) [] here) in
      let (next, height) = Reach-AreNext reach in (bs, reach, next, height)
