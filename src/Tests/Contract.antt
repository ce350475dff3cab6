-- ===== src/Tests/Contract.antt =====
-- The contract theorems at concrete inputs: a token "T" of which "A" owns fifty.
use raft_project.Common.{◌+◌, ◌-◌, ◌≡◌, ◌≢◌, true, false, none, List, [], ◌∷◌, ◌++◌, refl, arith}
use raft_project.Common.Tests.{if◌then◌else◌}
use raft_project.Common.Lists.{codes, Bytes, bytes_eq, bytes_eq-false→ne}
use raft_project.Common.Dict.{insert, lookup}
use raft_project.Common.Outcome.{ok, err}
use raft_project.Codec.{e64func}
use raft_project.Contract.Script.{address, token_id, order}
use raft_project.Contract.Operate.{
  operate0, operate1, operate2, operate3, operate4, operate5, operate6,
}
use raft_project.Contract.Operate.Arguments.{Const, str, tree, taken, named, operate-tree}
use raft_project.Contract.Exec.{
  Db, Changes, found, not_exist, freezed, a_key, b_key, f_key, t_key, read_balance, read_frozen,
  stored_balance, stored_flag, deal0, deal2, run, flush,
}
use raft_project.Contract.Exec.Token.{Token, update}
use raft_project.Contract.Exec.Refinement.{
  Represents, Implements, insert_balance-Represents, amount_script, transfer_script,
}
use raft_project.Contract.Exec.Batch.{
  Op, minted, sent, freeze, scripts_of, apply_all, run-Implements, transfer_moves,
  transfer_self_mints,
}
use raft_project.Contract.Exec.Creation.{deal0_creates, flush-Represents}
use raft_project.Contract.Exec.Faults.{transfer_crosses_tokens}

abbrev t : Bytes
t = codes "T"

abbrev alice : Bytes
alice = codes "A"

abbrev bob : Bytes
bob = codes "B"

abbrev carol : Bytes
carol = codes "C"

abbrev db : Db
db k = if bytes_eq t k then found alice else not_exist

abbrev mp : Changes
mp = insert (b_key t alice) (e64func 50) []

abbrev token : Token
token = record { owner = alice; balance = update (λ a. 0) alice 50; frozen = λ a. false }

-- A token without balances.
abbrev fresh_token : Bytes → Token
fresh_token who = record { owner = who; balance = λ a. 0; frozen = λ a. false }

db-Represents : Represents db [] t (fresh_token alice)
unfolding bytes_eq read_balance read_frozen stored_balance stored_flag lookup
db-Represents = record {
  owned = refl;
  balances = λ a. refl;
  flags = λ a. refl;
  in_range = λ a. omega arith;
}

mp-Represents : Represents db mp t token
mp-Represents =
    insert_balance-Represents db [] t (fresh_token alice) alice 50 db-Represents (omega arith)

abbrev ops : List Op
ops = minted 5 ∷ sent 20 bob ∷ freeze alice ∷ sent 1 bob ∷ []

run-Implements_example :
    Implements db t (run db alice mp (scripts_of t ops)) (apply_all token alice ops)
run-Implements_example = run-Implements db mp t token alice ops mp-Represents

-- The last transfer of the script meets the freeze before it.
ops_freezed : apply_all token alice ops ≡ err freezed
unfolding bytes_eq
ops_freezed = refl

transfer_moves_example :
    (mp' : Changes) × (deal2 db alice mp (transfer_script t 20 bob) ≡ ok mp')
    × (read_balance db mp' (b_key t alice) ≡ ok (50 - 20))
    × (read_balance db mp' (b_key t bob) ≡ ok (0 + 20))
    × (50 - 20 + (0 + 20) ≡ 50 + 0)
    × (read_balance db mp' (b_key t carol) ≡ read_balance db mp (b_key t carol))
unfolding bytes_eq
transfer_moves_example =
    transfer_moves db mp t token alice 20 bob mp-Represents refl (omega arith) (omega arith) carol
      (bytes_eq-false→ne alice bob refl) (bytes_eq-false→ne carol alice refl)
      (bytes_eq-false→ne carol bob refl)

transfer_self_mints_example :
    (mp' : Changes) × (deal2 db alice mp (transfer_script t 20 alice) ≡ ok mp')
    × (read_balance db mp' (b_key t alice) ≡ ok (50 + 20))
unfolding bytes_eq
transfer_self_mints_example =
    transfer_self_mints db mp t token alice 20 alice mp-Represents refl (omega arith) (omega arith)
      refl

-- The token is "T" seen as the token with the empty name and "T" behind it.
transfer_crosses_tokens_example :
    (mp' : Changes) × (deal2 db alice mp (transfer_script ([] ++ t) 20 bob) ≡ ok mp')
    × (read_balance db mp (b_key [] (t ++ bob)) ≡ ok 0)
    × (read_balance db mp' (b_key [] (t ++ bob)) ≡ ok (0 + 20))
unfolding bytes_eq
transfer_crosses_tokens_example =
    transfer_crosses_tokens db mp [] t token alice 20 bob mp-Represents refl (omega arith)
      (omega arith)

abbrev two_texts : List Const
two_texts = str t ∷ str bob ∷ []

operate-tree_example :
    (operate0 (tree two_texts) ≡ ok none)
    × (operate1 (tree two_texts) ≡ ok none)
    × (operate2 (tree two_texts) ≡ ok none)
    × (operate3 (tree two_texts)
        ≡ ok (named (codes "freeze") (taken (token_id ∷ address ∷ []) two_texts)))
    × (operate4 (tree two_texts)
        ≡ ok (named (codes "unfreeze") (taken (token_id ∷ address ∷ []) two_texts)))
    × (operate5 (tree two_texts) ≡ ok none)
    × (operate6 (tree two_texts)
        ≡ ok (named (codes "post") (taken (token_id ∷ order ∷ []) two_texts)))
operate-tree_example = operate-tree two_texts

flush-Represents_example :
    (db' : Db) × (flush (λ k v. true) true mp db ≡ ok db') × Represents db' [] t token
unfolding lookup insert bytes_eq
flush-Represents_example =
    flush-Represents (λ k v. true) db mp t token (λ k v. refl) (refl, tt) refl mp-Represents

-- The token 'ab' is known, and Alice has a balance of it; the token 'a' is created beside it.
abbrev longer : Db
longer k =
    if bytes_eq k (codes "ab")
    then found alice
    else if bytes_eq k (b_key (codes "ab") alice)
    then found (e64func 5)
    else not_exist

deal0_creates_example :
    (mp' : Changes) × (db' : Db) × (deal0 longer alice []
        (amount_script (codes "new") (codes "a") 9)
      ≡ ok mp')
    × (flush (λ k v. true) true mp' longer ≡ ok db')
    × (db' (a_key (codes "a")) ≡ found alice)
    × (read_balance db' [] (b_key (codes "a") alice) ≡ ok 0)
    × (db' (t_key (codes "a") alice) ≡ found (e64func 9))
    × (read_frozen db' [] (f_key (codes "a") alice) ≡ ok false)
    × ((k : Bytes)
        → k ≢ a_key (codes "a")
        → k ≢ b_key (codes "a") alice
        → k ≢ t_key (codes "a") alice
        → k ≢ f_key (codes "a") alice
        → db' k ≡ longer k)
unfolding bytes_eq
deal0_creates_example = deal0_creates (λ k v. true) longer (codes "a") alice 9 (λ k v. refl) refl
