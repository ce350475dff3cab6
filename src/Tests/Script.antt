-- ===== src/Tests/Script.antt =====
-- The theorem on the text of scripts at a concrete input.
use raft_project.Common.{◌+◌, ◌≡◌, refl, some, [], ◌∷◌, ◌++◌, arith}
use raft_project.Common.Lists.{codes}
use raft_project.Common.Outcome.{ok}
use raft_project.Contract.Operate.Arguments.{int, str}
use raft_project.Contract.Exec.Refinement.{amount_script}
use raft_project.Contract.Grammar.{parser}
use raft_project.Contract.Grammar.RoundTrip.{arguments_text, parser-call}

parser-call_example :
    parser (codes "mint" ++ arguments_text (str (codes "T") ∷ int 3 ∷ []))
    ≡ ok (some (amount_script (codes "mint") (codes "T") 3) ∷ [])
unfolding raft_project.Contract.Lexer.is_alpha raft_project.Contract.Lexer.is_alnum
    raft_project.Contract.Lexer.is_newline raft_project.Common.Lists.bytes_eq
parser-call_example =
    parser-call (codes "mint") (str (codes "T") ∷ int 3 ∷ [])
      (omega arith, refl, (refl, (refl, (refl, tt))))
      ((((λ e. omega arith), (λ e. omega arith), refl), tt), (omega arith, tt))
