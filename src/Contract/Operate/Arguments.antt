-- ===== src/Contract/Operate/Arguments.antt =====
-- The argument lists that the operations accept, over the trees that the grammar builds for them
-- (`parser1` and `parser2` of contract/parser/parser.go).
use raft_project.Common.{
  ℕ, zero, suc, ◌+◌, ◌*◌, ◌≡◌, refl, inl, inr, Bool, not, ◌||◌, ◌<◌, Option, none, some, List, [],
  ◌∷◌, ◌++◌, arith,
}
use raft_project.Common.Tests.{◌==◌, if◌then◌else◌, Bool-cases}
use raft_project.Common.Lists.{Bytes, codes, bytes_eq, bytes_eq_iff}
use raft_project.Common.Outcome.{ok, err}
use raft_project.Contract.Script.{
  Value, num, text, absent, ScriptArgument, Script, order, amount, address, token_id, percentage,
}
use raft_project.Contract.Operate.{
  Node, nil, node, o_const, o_elist, o_int, o_string, sub_off_factor, two_arguments,
  checked_argument, take_argument, argument_value, next_argument, present, nil_on_error,
  type_mismatch, missing_argument, operate0, operate1, operate2, operate3, operate4, operate5,
  operate6, compile, o_call, o_name,
}

-- A constant of the script's text.
pub data Const : Type 0 where
  int : ℕ → Const
  str : Bytes → Const

abbrev pub const_value : Const → Value
const_value (int n) = num n
const_value (str s) = text s

abbrev pub leaf : Const → Node
leaf (int n) = node (o_const + o_int * sub_off_factor) nil nil (num n)
leaf (str s) = node (o_const + o_string * sub_off_factor) nil nil (text s)

-- The tree of an argument list: a constant alone, or an `O_ELIST` of the first and the rest.
abbrev pub tree : List Const → Node
tree [] = nil
tree (c ∷ []) = leaf c
tree (c ∷ d ∷ cs) = node o_elist (leaf c) (tree (d ∷ cs)) absent

-- The kinds of argument by what they are for: amounts and percentages are numbers, the rest texts.
abbrev pub Wants : Type 0
Wants = List ℕ

abbrev pub is_number : ℕ → Bool
is_number typ = (typ == amount) || (typ == percentage)

abbrev pub suits : ℕ → Const → Bool
suits typ (int n) = is_number typ
suits typ (str s) = not (is_number typ)

-- The arguments wanted, if the constants begin with one of the right kind for each.
abbrev pub taken : Wants → List Const → Option (List ScriptArgument)
taken [] cs = some []
taken (w ∷ ws) [] = none
taken (w ∷ ws) (c ∷ cs) = elim (taken ws cs) [
  | none ↦ none
  | some args ↦ if suits w c then some (record { typ = w; value = const_value c } ∷ args) else none
]

abbrev pub named : Bytes → Option (List ScriptArgument) → Option Script
named name none = none
named name (some args) = some (record { name = name; args = args })

-- The check of a constant against a type number, by the kind that the type wants.
checked-leaf :
    (typ : ℕ) (c : Const)
    → typ < 5
    → checked_argument typ (leaf c) ≡ (
        if suits typ c then ok (record { typ = typ; value = const_value c }) else err type_mismatch)
unfolding checked_argument
checked-leaf zero (int n) h = refl
checked-leaf zero (str s) h = refl
checked-leaf (suc zero) (int n) h = refl
checked-leaf (suc zero) (str s) h = refl
checked-leaf (suc (suc zero)) (int n) h = refl
checked-leaf (suc (suc zero)) (str s) h = refl
checked-leaf (suc (suc (suc zero))) (int n) h = refl
checked-leaf (suc (suc (suc zero))) (str s) h = refl
checked-leaf (suc (suc (suc (suc zero)))) (int n) h = refl
checked-leaf (suc (suc (suc (suc zero)))) (str s) h = refl
checked-leaf (suc (suc (suc (suc (suc typ))))) c h = absurd (omega arith)

take-tree :
    (typ : ℕ) (c : Const) (cs : List Const) (args : List ScriptArgument)
    → typ < 5
    → take_argument typ (tree (c ∷ cs)) args ≡ (
        if suits typ c
        then ok (args ++ record { typ = typ; value = const_value c } ∷ [])
        else err type_mismatch)
unfolding take_argument argument_value
take-tree typ (int n) [] args h = rw (checked-leaf typ (int n) h) (ground arith)
take-tree typ (str s) [] args h = rw (checked-leaf typ (str s) h) (ground arith)
take-tree typ c (d ∷ cs) args h = rw (checked-leaf typ c h) (ground arith)

next-tree : (c : Const) (cs : List Const) → next_argument (tree (c ∷ cs)) ≡ ok (tree cs)
unfolding next_argument
next-tree (int n) [] = refl
next-tree (str s) [] = refl
next-tree c (d ∷ cs) = refl

present-tree : (c : Const) (cs : List Const) → present (tree (c ∷ cs)) ≡ ok (tree (c ∷ cs))
unfolding present
present-tree (int n) [] = refl
present-tree (str s) [] = refl
present-tree c (d ∷ cs) = refl

present-nil : present nil ≡ err missing_argument
unfolding present
present-nil = refl

two_arguments_lem :
    (typ : ℕ) (name : Bytes) (cs : List Const)
    → typ < 5
    → two_arguments typ name (tree cs) ≡ ok (named name (taken (token_id ∷ typ ∷ []) cs))
unfolding two_arguments nil_on_error
two_arguments_lem typ name [] h = rw present-nil refl
two_arguments_lem typ name (c ∷ []) h =
    rw (present-tree c [], take-tree token_id c [] [] (omega arith), next-tree c [])
      (elim (Bool-cases (suits token_id c)) [
        | inl suited ↦ rw (suited, present-nil) refl
        | inr wrong ↦ rw wrong refl
      ])
two_arguments_lem typ name (c ∷ d ∷ cs) h =
    rw
      (
        present-tree c (d ∷ cs),
        take-tree token_id c (d ∷ cs) [] (omega arith),
        next-tree c (d ∷ cs),
      )
      (elim (Bool-cases (suits token_id c)) [
        | inl suited ↦ rw (suited, present-tree d cs, take-tree typ d cs _ h) (ground arith)
        | inr wrong ↦ rw wrong (ground arith)
      ])

operate2_lem :
    (cs : List Const)
    → operate2 (tree cs)
      ≡ ok (named (codes "transfer") (taken (token_id ∷ amount ∷ address ∷ []) cs))
unfolding operate2 nil_on_error
operate2_lem [] = rw present-nil refl
operate2_lem (c ∷ []) =
    rw (present-tree c [], take-tree token_id c [] [] (omega arith), next-tree c [])
      (elim (Bool-cases (suits token_id c)) [
        | inl suited ↦ rw (suited, present-nil) refl
        | inr wrong ↦ rw wrong refl
      ])
operate2_lem (c ∷ d ∷ []) =
    rw
      (
        present-tree c (d ∷ []),
        take-tree token_id c (d ∷ []) [] (omega arith),
        next-tree c (d ∷ []),
      )
      (elim (Bool-cases (suits token_id c)) [
        | inl suited ↦
            rw (suited, present-tree d [], take-tree amount d [] _ (omega arith), next-tree d [])
              (elim (Bool-cases (suits amount d)) [
                | inl suited' ↦ rw (suited', present-nil) refl
                | inr wrong ↦ rw wrong refl
              ])
        | inr wrong ↦ rw wrong refl
      ])
operate2_lem (c ∷ d ∷ e ∷ cs) =
    rw
      (
        present-tree c (d ∷ e ∷ cs),
        take-tree token_id c (d ∷ e ∷ cs) [] (omega arith),
        next-tree c (d ∷ e ∷ cs),
      )
      (elim (Bool-cases (suits token_id c)) [
        | inl suited ↦
            rw
              (
                suited,
                present-tree d (e ∷ cs),
                take-tree amount d (e ∷ cs) _ (omega arith),
                next-tree d (e ∷ cs),
              )
              (elim (Bool-cases (suits amount d)) [
                | inl suited' ↦
                    rw (suited', present-tree e cs, take-tree address e cs _ (omega arith))
                      (ground arith)
                | inr wrong ↦ rw wrong (ground arith)
              ])
        | inr wrong ↦ rw wrong (ground arith)
      ])

-- On the tree of any list of constants, none of the seven operations panics. Each gives its script
-- with exactly the first constants as arguments, if these are of the kinds that it wants in their
-- order, and the nil script if they are not or too few; constants beyond them are ignored.
pub operate-tree :
    (cs : List Const)
    → (operate0 (tree cs) ≡ ok (named (codes "new") (taken (token_id ∷ amount ∷ []) cs)))
      × (operate1 (tree cs) ≡ ok (named (codes "mint") (taken (token_id ∷ amount ∷ []) cs)))
      × (operate2 (tree cs)
          ≡ ok (named (codes "transfer") (taken (token_id ∷ amount ∷ address ∷ []) cs)))
      × (operate3 (tree cs) ≡ ok (named (codes "freeze") (taken (token_id ∷ address ∷ []) cs)))
      × (operate4 (tree cs) ≡ ok (named (codes "unfreeze") (taken (token_id ∷ address ∷ []) cs)))
      × (operate5 (tree cs) ≡ ok (named (codes "rate") (taken (token_id ∷ percentage ∷ []) cs)))
      × (operate6 (tree cs) ≡ ok (named (codes "post") (taken (token_id ∷ order ∷ []) cs)))
unfolding operate0 operate1 operate3 operate4 operate5 operate6
operate-tree cs = (
  two_arguments_lem amount (codes "new") cs (omega arith),
  two_arguments_lem amount (codes "mint") cs (omega arith),
  operate2_lem cs,
  two_arguments_lem address (codes "freeze") cs (omega arith),
  two_arguments_lem address (codes "unfreeze") cs (omega arith),
  two_arguments_lem percentage (codes "rate") cs (omega arith),
  two_arguments_lem order (codes "post") cs (omega arith),
)

-- The call of a function by name, as `parser0` builds it.
abbrev pub call : Bytes → List Const → Node
call name cs = node o_call (node o_name nil nil (text name)) (tree cs) absent

-- The arguments that each registered operation wants.
abbrev pub wants : Bytes → Option Wants
wants name =
    if bytes_eq name (codes "new")
    then some (token_id ∷ amount ∷ [])
    else if bytes_eq name (codes "mint")
    then some (token_id ∷ amount ∷ [])
    else if bytes_eq name (codes "transfer")
    then some (token_id ∷ amount ∷ address ∷ [])
    else if bytes_eq name (codes "freeze")
    then some (token_id ∷ address ∷ [])
    else if bytes_eq name (codes "unfreeze")
    then some (token_id ∷ address ∷ [])
    else none

-- Compiling one call gives no script for an unregistered name, and one entry for a registered name:
-- the script of that name with the arguments taken, or nil if the constants do not fit.
pub compile-call :
    (name : Bytes) (cs : List Const)
    → compile (call name cs ∷ [])
      ≡ ok (elim (wants name) [ none ↦ [] | some ws ↦ named name (taken ws cs) ∷ [] ])
unfolding compile
compile-call name cs =
    let ops = operate-tree cs in
    elim (Bool-cases (bytes_eq name (codes "new"))) [
      | inl is_new ↦ rw (is_new, ops.0) (rw ((bytes_eq_iff _ _).0 is_new) refl)
      | inr not_new ↦ elim (Bool-cases (bytes_eq name (codes "mint"))) [
        | inl is_mint ↦ rw (not_new, is_mint, ops.1) (rw ((bytes_eq_iff _ _).0 is_mint) refl)
        | inr not_mint ↦ elim (Bool-cases (bytes_eq name (codes "transfer"))) [
          | inl is_transfer ↦
              rw (not_new, not_mint, is_transfer, ops.2)
                (rw ((bytes_eq_iff _ _).0 is_transfer) refl)
          | inr not_transfer ↦ elim (Bool-cases (bytes_eq name (codes "freeze"))) [
            | inl is_freeze ↦
                rw (not_new, not_mint, not_transfer, is_freeze, ops.3)
                  (rw ((bytes_eq_iff _ _).0 is_freeze) refl)
            | inr not_freeze ↦ elim (Bool-cases (bytes_eq name (codes "unfreeze"))) [
              | inl is_unfreeze ↦
                  rw (not_new, not_mint, not_transfer, not_freeze, is_unfreeze, ops.4)
                    (rw ((bytes_eq_iff _ _).0 is_unfreeze) refl)
              | inr not_unfreeze ↦
                  rw (not_new, not_mint, not_transfer, not_freeze, not_unfreeze) refl
            ]
          ]
        ]
      ]
    ]
