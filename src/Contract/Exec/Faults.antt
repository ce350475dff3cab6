-- ===== src/Contract/Exec/Faults.antt =====
-- What scripts can do that the operations do not mean: see the findings in each comment.
use raft_project.Common.{
  ℕ, ◌+◌, ◌^◌, ◌≤◌, ◌<◌, ◌≡◌, refl, ap, false, some, none, List, [], ◌∷◌, ◌++◌, append_assoc, arith,
}
use raft_project.Common.Lists.{Bytes, bytes_eq_iff}
use raft_project.Common.Outcome.{ok, panic}
use raft_project.Contract.Operate.{compile}
use raft_project.Contract.Operate.Arguments.{Const, Wants, call, wants, taken, compile-call}
use raft_project.Contract.Exec.{Db, Changes, b_key, read_balance, deal2, new}
use raft_project.Contract.Exec.Token.{Token}
use raft_project.Contract.Exec.Refinement.{Represents, transfer_script}
use raft_project.Contract.Exec.Batch.{sent_ok}

-- A call of a registered operation whose constants do not fit its arguments compiles to one nil
-- script, and executing that panics, on every database.
pub misfit_panics :
    (db : Db) (who name : Bytes) (cs : List Const) (ws : Wants)
    → wants name ≡ some ws
    → taken ws cs ≡ none
    → (compile (call name cs ∷ []) ≡ ok (none ∷ [])) × (new db (none ∷ []) who ≡ panic)
unfolding new
misfit_panics db who name cs ws known misfit = (rw (compile-call name cs, known, misfit) refl, refl)

-- A transfer of the token whose name is `id` and then `more` credits an account of the token `id`:
-- the one whose address is `more` and then the receiver. The key of a balance is the token's name
-- and the address with nothing between them.
pub transfer_crosses_tokens :
    (db : Db) (mp : Changes) (id more : Bytes) (t : Token) (from : Bytes) (n : ℕ) (to : Bytes)
    → Represents db mp (id ++ more) t
    → t.frozen from ≡ false
    → n ≤ t.balance from
    → t.balance to + n < 2 ^ 64
    → (mp' : Changes) × (deal2 db from mp (transfer_script (id ++ more) n to) ≡ ok mp')
      × (read_balance db mp (b_key id (more ++ to)) ≡ ok (t.balance to))
      × (read_balance db mp' (b_key id (more ++ to)) ≡ ok (t.balance to + n))
transfer_crosses_tokens db mp id more t from n to r free enough room =
    let (mp', done, after) = sent_ok db mp (id ++ more) t from n to r free enough room in
    let same : b_key (id ++ more) to ≡ b_key id (more ++ to) =
      ap (λ (k : Bytes). b'b' ∷ b'/' ∷ k) (append_assoc id more to) in
    let credited : read_balance db mp' (b_key (id ++ more) to) ≡ ok (t.balance to + n) =
      ground (arith, after.balances to, bytes_eq_iff to to) in
    (mp', done, rw same at (r.balances to), rw same at credited)
