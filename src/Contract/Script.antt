-- ===== src/Contract/Script.antt =====
-- contract/parser/otypes.go: a compiled script, and its byte format. The error texts are not kept
-- apart: each of them reports a length that does not fit.
pub mod RoundTrip
use raft_project.Common.{
  ℕ, zero, suc, ◌+◌, ◌-◌, ◌%◌, ◌^◌, Bool, true, false, ◌||◌, List, [], ◌∷◌, ◌++◌, arith,
}
use raft_project.Common.Tests.{ltb, ◌==◌, if◌then◌else◌}
use raft_project.Common.Lists.{Bytes, length, take, drop}
use raft_project.Common.Outcome.{Outcome, ok, err, panic, ◌>>=◌, ◌>>◌, fail_if}
use raft_project.Codec.{LengthError, illegal_length, le_decode, e32func, e64func, eslice, dslice}

-- The `interface{}` of an argument: a `uint64`, a `string`, or nothing.
pub data Value : Type 0 where
  num : ℕ → Value
  text : Bytes → Value
  absent : Value

-- `ORDER = iota` and what follows it.
abbrev pub order : ℕ
order = 0

abbrev pub amount : ℕ
amount = 1

abbrev pub address : ℕ
address = 2

abbrev pub token_id : ℕ
token_id = 3

abbrev pub percentage : ℕ
percentage = 4

pub record ScriptArgument : Type 0 where
  pub typ : ℕ
  pub value : Value

pub record Script : Type 0 where
  pub name : Bytes
  pub args : List ScriptArgument

-- `new(ScriptArgument)`; a nil pointer among the arguments of a receiver counts as this too, since
-- `Read` allocates it.
abbrev pub zero_argument : ScriptArgument
zero_argument = record { typ = 0; value = absent }

abbrev pub zero_arguments : ℕ → List ScriptArgument
zero_arguments zero = []
zero_arguments (suc n) = zero_argument ∷ zero_arguments n

unfoldable pub show_value : Value → Bytes
show_value (num n) = e64func n
show_value (text s) = eslice s
show_value absent = []

-- `(*ScriptArgument).Show`
unfoldable pub show_argument : ScriptArgument → Bytes
unfolding show_value
show_argument a = e32func a.typ ++ show_value a.value

-- `(*ScriptArgument).Read`, from the receiver `a`. An unknown type keeps the receiver's value, and
-- its four bytes stay in the input.
unfoldable pub read_argument : ScriptArgument → Bytes → Outcome LengthError (ScriptArgument × Bytes)
read_argument a input =
    let typ = le_decode (take 4 input) in
    let body = drop 4 input in
    if ltb (length input) 4
    then err illegal_length
    else if typ == amount || typ == percentage
    then if ltb (length body) 8
      then err illegal_length
      else ok (record { typ = typ; value = num (le_decode (take 8 body)) }, drop 8 body)
    else if typ == order || typ == address || typ == token_id
    then (dslice body >>= λ r. ok (record { typ = typ; value = text r.0 }, r.1))
    else ok (record { typ = typ; value = a.value }, input)

unfoldable pub show_arguments : List ScriptArgument → Bytes
unfolding show_argument
show_arguments [] = []
show_arguments (a ∷ args) = show_argument a ++ show_arguments args

-- `(*Script).Show`
unfoldable pub show : Script → Bytes
unfolding show_arguments
show s =
    let n = length s.args % 2 ^ 32 in e32func n ++ (eslice s.name ++ show_arguments (take n s.args))

-- The loop of `(*Script).Read`: the first `n` entries of the receiver are read over.
unfoldable pub read_arguments :
    ℕ → List ScriptArgument → Bytes → Outcome LengthError (List ScriptArgument × Bytes)
unfolding read_argument
read_arguments zero args input = ok (args, input)
read_arguments (suc n) [] input = panic
read_arguments (suc n) (a ∷ args) input = do
  first ← read_argument a input
  rest ← read_arguments n args first.1
  ok (first.0 ∷ rest.0, rest.1)

-- `(*Script).Read`, from the receiver `s`.
unfoldable pub read : Script → Bytes → Outcome LengthError (Script × Bytes)
unfolding read_arguments
read s input = do
  fail_if (ltb (length input) 4) illegal_length
  let n = le_decode (take 4 input)
  named ← dslice (drop 4 input)
  let room = if ltb (length s.args % 2 ^ 32) n then zero_arguments n else s.args
  filled ← read_arguments n room named.1
  ok (record { name = named.0; args = filled.0 }, filled.1)
