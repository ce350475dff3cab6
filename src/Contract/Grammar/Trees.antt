-- ===== src/Contract/Grammar/Trees.antt =====
-- The trees of calls, from words.
use raft_project.Common.{ℕ, zero, suc, ◌≡◌, refl, true, some, List, [], ◌∷◌}
use raft_project.Common.Lists.{Bytes}
use raft_project.Contract.Operate.Arguments.{Const, int, str, leaf, tree, call}
use raft_project.Contract.Lexer.{Word, identifier, int_constant, string_constant}
use raft_project.Contract.Grammar.{
  Stream, primary_expression, starts, primary, arguments, call_node, function, parse,
}

abbrev pub word_of : Const → Word
word_of (int n) = int_constant n
word_of (str s) = string_constant s

abbrev pub word_list : List Const → Stream
word_list [] = []
word_list (c ∷ cs) = some (word_of c) ∷ word_list cs

primary-word_of : (c : Const) → primary (word_of c) ≡ some (leaf c)
unfolding primary
primary-word_of (int n) = refl
primary-word_of (str s) = refl

starts-word_of : (c : Const) → starts (word_of c) primary_expression ≡ true
unfolding starts
starts-word_of (int n) = refl
starts-word_of (str s) = refl

arguments-word_list :
    (c : Const) (cs : List Const) → arguments (word_of c) (word_list cs) ≡ some (tree (c ∷ cs), [])
unfolding arguments
arguments-word_list c [] = rw (primary-word_of c) refl
arguments-word_list c (d ∷ cs) =
    rw (primary-word_of c, starts-word_of d, arguments-word_list d cs) refl

function-word_list :
    (name : Bytes) (cs : List Const) → function name (word_list cs) ≡ some (call name cs, [])
unfolding function call_node
function-word_list name [] = refl
function-word_list name (c ∷ cs) = rw (arguments-word_list c cs) refl

pub parse-word_list :
    (fuel : ℕ) (name : Bytes) (cs : List Const)
    → parse (suc fuel) (some (identifier name) ∷ word_list cs) ≡ some (call name cs ∷ [])
unfolding parse
parse-word_list zero name cs = rw (function-word_list name cs) refl
parse-word_list (suc fuel) name cs = rw (function-word_list name cs) refl
