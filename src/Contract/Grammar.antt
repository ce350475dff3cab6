-- ===== src/Contract/Grammar.antt =====
-- contract/parser/parser.go: from the words of a script to the trees of its calls, and `Parser` of
-- contract/parser/operate.go from a script's bytes.
pub mod Trees
pub mod RoundTrip
use Prim.Native.Nat.{bit_and}
use raft_project.Common.{
  ℕ, zero, suc, ◌+◌, ◌*◌, Bool, true, false, not, Option, none, some, List, [], ◌∷◌, ◌++◌,
}
use raft_project.Common.Tests.{◌==◌, if◌then◌else◌}
use raft_project.Common.Lists.{Bytes, length, get_elem?}
use raft_project.Common.Outcome.{Outcome, ok, and_then}
use raft_project.Contract.Script.{Value, num, text, absent, Script}
use raft_project.Contract.Operate.{
  Node, nil, node, o_call, o_name, o_const, o_elist, o_int, o_string, sub_off_factor, OperateError,
  compile,
}
use raft_project.Contract.Lexer.{Word, identifier, int_constant, string_constant, lex}

-- The words to come; a `none` is a stop, an `EOF` or an `ERR` of the lexer. After the last word there
-- are stops for ever.
abbrev pub Stream : Type 0
Stream = List (Option Word)

-- `getw`, which gives nil for a stop, and `peek`, which puts a word back but not a stop.
unfoldable pub getw : Stream → Option Word × Stream
getw [] = (none, [])
getw (w ∷ ws) = (w, ws)

unfoldable pub peek : Stream → Option Word × Stream
peek [] = (none, [])
peek (none ∷ ws) = (none, ws)
peek (some w ∷ ws) = (some w, some w ∷ ws)

abbrev pub typ_of : Word → ℕ
typ_of (identifier name) = 0
typ_of (int_constant n) = 1
typ_of (string_constant s) = 2

-- `UnDefined`, `FunctionCALL`, `ArgumentExpressionList`, `PrimaryExpression`
abbrev pub function_call : ℕ
function_call = 1

abbrev pub argument_expression_list : ℕ
argument_expression_list = 2

abbrev pub primary_expression : ℕ
primary_expression = 4

-- `firstList`
abbrev pub first_list : List ℕ
first_list = 1 ∷ 6 ∷ 6 ∷ []

-- `detect1`, on the word that `peek` gives.
unfoldable pub starts : Word → ℕ → Bool
starts w grm = elim (get_elem? first_list (typ_of w)) [
  | none ↦ false
  | some class ↦ not (bit_and class grm == 0)
]

-- `parser2`; `none` is its error.
unfoldable pub primary : Word → Option Node
primary (identifier name) = none
primary (int_constant n) = some (node (o_const + o_int * sub_off_factor) nil nil (num n))
primary (string_constant s) = some (node (o_const + o_string * sub_off_factor) nil nil (text s))

-- `parser1` after its first word. A stop is an end, which `peek` has taken off; the call of `getw` that
-- is to skip it takes off what follows it.
unfoldable pub arguments : Word → Stream → Option (Node × Stream)
arguments w [] = and_then (primary w) (λ n1. some (n1, []))
arguments w (none ∷ ws) = and_then (primary w) (λ n1. some (n1, (getw ws).1))
arguments w (some v ∷ ws) =
    let rest = arguments v ws in
    and_then (primary w) (λ n1.
      if starts v primary_expression
      then and_then rest (λ r. some (node o_elist n1 r.0 absent, r.1))
      else none)

-- `parser0` after the function's name.
unfoldable pub call_node : Bytes → Node → Node
call_node name args = node o_call (node o_name nil nil (text name)) args absent

unfoldable pub function : Bytes → Stream → Option (Node × Stream)
function name [] = some (call_node name nil, [])
function name (none ∷ ws) = some (call_node name nil, (getw ws).1)
function name (some w ∷ ws) = and_then (arguments w ws) (λ r. some (call_node name r.0, r.1))

-- `(*scriptParser).Parser`; every round takes a word. `none` is its error.
unfoldable pub parse : ℕ → Stream → Option (List Node)
parse zero ws = some []
parse (suc fuel) [] = some []
parse (suc fuel) (none ∷ ws) = some []
parse (suc fuel) (some (identifier name) ∷ ws) =
    and_then (function name ws) (λ r. and_then (parse fuel r.1) (λ ns. some (r.0 ∷ ns)))
parse (suc fuel) (some (int_constant n) ∷ ws) = none
parse (suc fuel) (some (string_constant s) ∷ ws) = none

-- `Parser`: no scripts after an error.
abbrev pub compile_trees : Option (List Node) → Outcome OperateError (List (Option Script))
compile_trees none = ok []
compile_trees (some ns) = compile ns

unfoldable pub parser : Bytes → Outcome OperateError (List (Option Script))
parser src = compile_trees (parse (length (lex src)) (lex src))
