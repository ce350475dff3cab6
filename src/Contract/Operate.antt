-- ===== src/Contract/Operate.antt =====
-- contract/parser/operate.go: from the syntax tree of a call to a compiled script, with the node
-- type and the operation codes of contract/parser/ptypes.go.
pub mod Arguments
use Prim.Native.Nat.{bit_and}
use raft_project.Common.{ℕ, zero, suc, ◌+◌, ◌*◌, ◌/◌, Bool, Option, none, some, List, [], ◌∷◌, ◌++◌}
use raft_project.Common.Tests.{◌==◌, if◌then◌else◌}
use raft_project.Common.Lists.{Bytes, codes, bytes_eq, get_elem?}
use raft_project.Common.Outcome.{Outcome, ok, err, panic, ◌>>=◌, ◌>>◌, or_panic}
use raft_project.Contract.Script.{
  Value, num, text, absent, ScriptArgument, Script, order, amount, address, token_id, percentage,
}

abbrev pub sub_off_factor : ℕ
sub_off_factor = 256

abbrev pub typ_mask : ℕ
typ_mask = 0xFF

abbrev pub sub_mask : ℕ
sub_mask = 0xFF00

abbrev pub o_int : ℕ
o_int = 1

abbrev pub o_string : ℕ
o_string = 2

abbrev pub o_call : ℕ
o_call = 1

abbrev pub o_name : ℕ
o_name = 2

abbrev pub o_const : ℕ
o_const = 3

abbrev pub o_elist : ℕ
o_elist = 4

-- A `*scriptNode`: `op`, `left`, `right` and `value`, or nil.
pub data Node : Type 0 where
  nil : Node
  node : ℕ → Node → Node → Value → Node

pub data OperateError : Type 0 where
  type_mismatch missing_argument : OperateError

abbrev pub typ_list : List ℕ
typ_list = o_string ∷ o_int ∷ o_string ∷ o_string ∷ o_int ∷ []

unfoldable pub argument_value : Node → Outcome OperateError Node
argument_value nil = panic
argument_value (node op left right value) =
    if bit_and op typ_mask == o_elist then ok left else ok (node op left right value)

unfoldable pub next_argument : Node → Outcome OperateError Node
next_argument nil = panic
next_argument (node op left right value) =
    if bit_and op typ_mask == o_elist then ok right else ok nil

-- What `takeArgument` does with the argument's node.
unfoldable pub checked_argument : ℕ → Node → Outcome OperateError ScriptArgument
checked_argument typ nil = panic
checked_argument typ (node op left right value) = do
  expected ← or_panic (get_elem? typ_list typ)
  if bit_and op sub_mask / sub_off_factor == expected
      then ok (record { typ = typ; value = value })
      else err type_mismatch

unfoldable pub take_argument :
    ℕ → Node → List ScriptArgument → Outcome OperateError (List ScriptArgument)
take_argument typ np args = do
  arg ← argument_value np
  taken ← checked_argument typ arg
  ok (args ++ taken ∷ [])

-- `if np == nil { return nil }`
unfoldable pub present : Node → Outcome OperateError Node
present nil = err missing_argument
present (node op left right value) = ok (node op left right value)

-- Each `operate` returns a nil script for any error.
unfoldable pub nil_on_error : Outcome OperateError Script → Outcome OperateError (Option Script)
nil_on_error (ok s) = ok (some s)
nil_on_error (err e) = ok none
nil_on_error panic = panic

-- The bodies of `operate0`, `operate1` and `operate3` to `operate6`, which differ in the type of the
-- second argument and in the name.
unfoldable pub two_arguments : ℕ → Bytes → Node → Outcome OperateError (Option Script)
two_arguments typ name np = nil_on_error (do
  first ← present np
  args ← take_argument token_id first []
  second ← next_argument first
  second ← present second
  args ← take_argument typ second args
  ok (record { name = name; args = args }))

unfoldable pub operate0 : Node → Outcome OperateError (Option Script)
unfolding two_arguments
operate0 = two_arguments amount (codes "new")

unfoldable pub operate1 : Node → Outcome OperateError (Option Script)
unfolding two_arguments
operate1 = two_arguments amount (codes "mint")

unfoldable pub operate2 : Node → Outcome OperateError (Option Script)
operate2 np = nil_on_error (do
  first ← present np
  args ← take_argument token_id first []
  second ← next_argument first
  second ← present second
  args ← take_argument amount second args
  third ← next_argument second
  third ← present third
  args ← take_argument address third args
  ok (record { name = codes "transfer"; args = args }))

unfoldable pub operate3 : Node → Outcome OperateError (Option Script)
unfolding two_arguments
operate3 = two_arguments address (codes "freeze")

unfoldable pub operate4 : Node → Outcome OperateError (Option Script)
unfolding two_arguments
operate4 = two_arguments address (codes "unfreeze")

unfoldable pub operate5 : Node → Outcome OperateError (Option Script)
unfolding two_arguments
operate5 = two_arguments percentage (codes "rate")

unfoldable pub operate6 : Node → Outcome OperateError (Option Script)
unfolding two_arguments
operate6 = two_arguments order (codes "post")

-- `operateRegistry`, whose entries for `rate` and `post` are commented out.
unfoldable pub operate_registry : Bytes → Option (Node → Outcome OperateError (Option Script))
unfolding operate0 operate1 operate2 operate3 operate4
operate_registry name =
    if bytes_eq name (codes "new")
    then some operate0
    else if bytes_eq name (codes "mint")
    then some operate1
    else if bytes_eq name (codes "transfer")
    then some operate2
    else if bytes_eq name (codes "freeze")
    then some operate3
    else if bytes_eq name (codes "unfreeze")
    then some operate4
    else none

-- `name, _ := n.left.value.(string)`
called_name : Node → Outcome OperateError Bytes
called_name (node op (node op' left right (text s)) args value) = ok s
called_name (node op (node op' left right (num n)) args value) = ok []
called_name (node op (node op' left right absent) args value) = ok []
called_name (node op nil args value) = panic
called_name nil = panic

called_arguments : Node → Outcome OperateError Node
called_arguments (node op left right value) = ok right
called_arguments nil = panic

-- The loop of `Parser` over the parsed calls. Each of its rounds reads the first call, `wp.ns[0]`.
compile_rounds : ℕ → Node → List (Option Script) → Outcome OperateError (List (Option Script))
unfolding operate_registry called_name called_arguments
compile_rounds zero call xs = ok xs
compile_rounds (suc n) call xs = do
  name ← called_name call
  args ← called_arguments call
  elim (operate_registry name) [
    | none ↦ ok []
    | some fp ↦ (do script ← fp args; compile_rounds n call (xs ++ script ∷ []))
  ]

rounds : List Node → ℕ
rounds [] = 0
rounds (c ∷ cs) = suc (rounds cs)

-- `Parser`, from the calls that the grammar has read.
unfoldable pub compile : List Node → Outcome OperateError (List (Option Script))
unfolding compile_rounds rounds
compile [] = ok []
compile (c ∷ cs) = compile_rounds (suc (rounds cs)) c []
