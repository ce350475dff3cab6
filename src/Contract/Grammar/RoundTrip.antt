-- ===== src/Contract/Grammar/RoundTrip.antt =====
-- A script's text is read as the call that it was written from.
use raft_project.Common.{
  ℕ, zero, suc, ◌-◌, ◌^◌, ◌≤◌, ◌<◌, ◌≡◌, refl, ap, ◌∙◌, none, some, List, [], ◌∷◌, ◌++◌,
  append_assoc, arith,
}
use raft_project.Common.Lists.{Bytes, length, length-append, All}
use raft_project.Common.Outcome.{ok}
use raft_project.Contract.Operate.Arguments.{Const, int, str, wants, named, taken, compile-call}
use raft_project.Contract.Lexer.{identifier, symbol, words, lex}
use raft_project.Contract.Lexer.Digits.{decimal, decimal-IsNumeral, IsNumeral}
use raft_project.Contract.Lexer.Words.{
  Ends, IsName, IsQuotable, symbol-space, symbol-name, symbol-number, symbol-text,
}
use raft_project.Contract.Grammar.{parser}
use raft_project.Contract.Grammar.Trees.{word_of, word_list, parse-word_list}

-- A constant as it is written: in decimal, or in double quotes.
pub const_text : Const → Bytes
const_text (int n) = decimal n
const_text (str s) = b'"' ∷ (s ++ b'"' ∷ [])

pub arguments_text : List Const → Bytes
arguments_text [] = []
arguments_text (c ∷ cs) = b' ' ∷ (const_text c ++ arguments_text cs)

-- A 64 bit number, or a text that double quotes can hold.
abbrev pub IsWritable : Const → Type 0
IsWritable (int n) = n < 2 ^ 64
IsWritable (str s) = All IsQuotable s

arguments_text-Ends : (cs : List Const) → Ends (arguments_text cs)
unfolding arguments_text
arguments_text-Ends [] = tt
arguments_text-Ends (c ∷ cs) = refl

length-numeral : (n : ℕ) (ds : Bytes) → IsNumeral n ds → 0 < length ds
length-numeral n [] h = absurd h
length-numeral n (c ∷ ds) h = omega arith

length-const_text : (c : Const) → IsWritable c → 0 < length (const_text c)
unfolding const_text
length-const_text (int n) h = length-numeral n (decimal n) (decimal-IsNumeral n h)
length-const_text (str s) h = omega arith

symbol-const :
    (fuel : ℕ) (c : Const) (rest : Bytes)
    → IsWritable c
    → Ends rest
    → symbol (suc fuel) (const_text c ++ rest) ≡ (some (word_of c), rest)
unfolding const_text
symbol-const fuel (int n) rest h e = symbol-number fuel n (decimal n) rest (decimal-IsNumeral n h) e
symbol-const fuel (str s) rest h e =
    rw (append_assoc s (b'"' ∷ []) rest) (symbol-text fuel s rest h)

words-arguments :
    (fuel : ℕ) (cs : List Const)
    → All IsWritable cs
    → length (arguments_text cs) ≤ fuel
    → words fuel (arguments_text cs) ≡ word_list cs
unfolding words arguments_text
words-arguments zero [] h le = refl
words-arguments (suc fuel) [] h le = refl
words-arguments zero (c ∷ cs) h le = absurd (omega arith)
words-arguments (suc fuel) (c ∷ cs) h le =
    let body : Bytes = const_text c ++ arguments_text cs in
    let size = length-append (const_text c) (arguments_text cs) in
    let some_text = length-const_text c h.0 in
    let counted : length body ≡ suc (length body - 1) = omega arith in
    let read : symbol (suc (length body)) (b' ' ∷ body) ≡ (some (word_of c), arguments_text cs) =
      symbol-space (length body) body
      ∙ rw counted
          (symbol-const (length body - 1) c (arguments_text cs) h.0 (arguments_text-Ends cs)) in
    rw read (ap (λ ws. some (word_of c) ∷ ws) (words-arguments fuel cs h.1 (omega arith)))

lex-call :
    (name : Bytes) (cs : List Const)
    → IsName name
    → All IsWritable cs
    → lex (name ++ arguments_text cs) ≡ some (identifier name) ∷ word_list cs
unfolding lex words
lex-call [] cs named h = absurd named
lex-call (c ∷ name) cs named h =
    let rest : Bytes = arguments_text cs in
    let read = symbol-name (length (name ++ rest)) (c ∷ name) rest named (arguments_text-Ends cs) in
    rw read (
      ap (λ ws. some (identifier (c ∷ name)) ∷ ws)
        (words-arguments (length (name ++ rest)) cs h (omega (arith, length-append name rest))))

-- The text of a call, its name and then its constants with spaces between them, compiles to the
-- script that the operation of that name makes of the constants; to no script if there is no such
-- operation, and to the nil script if the constants do not fit it. Names are of letters and digits,
-- numbers have 64 bits, and texts hold no quotation mark, back quote or end of a line.
pub parser-call :
    (name : Bytes) (cs : List Const)
    → IsName name
    → All IsWritable cs
    → parser (name ++ arguments_text cs)
      ≡ ok (elim (wants name) [ none ↦ [] | some ws ↦ named name (taken ws cs) ∷ [] ])
unfolding parser
parser-call name cs n h =
    rw (lex-call name cs n h, parse-word_list (length (word_list cs)) name cs)
      (compile-call name cs)
