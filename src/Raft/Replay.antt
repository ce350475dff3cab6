-- ===== src/Raft/Replay.antt =====
-- What `commitEntries` does with entries that it has committed.
use raft_project.Common.{ℕ, ◌≤◌, ◌≡◌, refl, ◌∙◌, true, List, [], ◌∷◌, ◌++◌, arith}
use raft_project.Common.Tests.{leb}
use raft_project.Common.Lists.{All}
use raft_project.Common.Outcome.{Outcome, ok, err, panic, ◌>>=◌}
use raft_project.Store.{Badger}
use raft_project.Raft.{Entry, Outside, Config, Moment, RaftNode}
use raft_project.Raft.Commit.{commit_entry, commit_entries}

bind_rest :
    {E A B C : Type 0} (x : Outcome E A) (f : A → Outcome E C) (g : A → Outcome E B)
    (h : B → Outcome E C)
    → ((a : A) → f a ≡ (g a >>= h))
    → (x >>= f) ≡ (x >>= g >>= h)
bind_rest (ok a) f g h same = same a
bind_rest (err e) f g h same = refl
bind_rest panic f g h same = refl

module _ (b : Badger) (o : Outside) (c : Config) where
  -- Entries up to the committed index are passed over.
  pub replay_none :
      (at : ℕ → Moment) (es : List Entry) (nd : RaftNode b)
      → All (λ e. e.index ≤ nd.committed_index) es
      → commit_entries b o c at nd es ≡ ok nd
  unfolding commit_entries commit_entry
  replay_none at [] nd old = refl
  replay_none at (e ∷ es) nd old =
      let here : leb e.index nd.committed_index ≡ true = ground (arith, old.0) in
      rw here (replay_none at es nd old.1)

  commit_entries-append :
      (at : ℕ → Moment) (es fs : List Entry) (nd : RaftNode b)
      → commit_entries b o c at nd (es ++ fs)
        ≡ (commit_entries b o c at nd es >>= λ nd'. commit_entries b o c at nd' fs)
  unfolding commit_entries
  commit_entries-append at [] fs nd = refl
  commit_entries-append at (e ∷ es) fs nd =
      bind_rest (commit_entry b o c (at e.index) nd e)
        (λ nd'. commit_entries b o c at nd' (es ++ fs)) (λ nd'. commit_entries b o c at nd' es)
        (λ nd'. commit_entries b o c at nd' fs) (λ nd'. commit_entries-append at es fs nd')

  -- When raft hands a node entries again, those up to its committed index change nothing: with further
  -- entries behind them it does what it does with the further entries alone.
  pub commit_entries-replayed :
      (at : ℕ → Moment) (es fs : List Entry) (nd : RaftNode b)
      → All (λ e. e.index ≤ nd.committed_index) es
      → commit_entries b o c at nd (es ++ fs) ≡ commit_entries b o c at nd fs
  commit_entries-replayed at es fs nd old =
      commit_entries-append at es fs nd ∙ rw (replay_none at es nd old) refl
