-- ===== src/Contract/Lexer.antt =====
-- contract/parser/word.go, ctypes.go and wtypes.go: from the bytes of a script to its words. The
-- reader's buffers hold at most one character that was put back, so putting it back is to leave it
-- in the input.
pub mod Digits
pub mod Words
use Prim.Native.Nat.{bit_and}
use raft_project.Common.{
  ℕ, zero, suc, ◌+◌, ◌-◌, ◌*◌, ◌^◌, Bool, true, false, not, ◌&&◌, ◌||◌, Option, none, some, List,
  [], ◌∷◌, ◌++◌,
}
use raft_project.Common.Tests.{ltb, leb, ◌==◌, if◌then◌else◌}
use raft_project.Common.Lists.{Bytes, length, get_elem?}
use raft_project.Common.Outcome.{and_then}

-- `charList`
abbrev pub char_list : List ℕ
char_list =
    0 ∷ 0 ∷ 0 ∷ 0 ∷ 0 ∷ 0 ∷ 0 ∷ 0 ∷ 0 ∷ 16 ∷ 64 ∷ 16 ∷ 16 ∷ 64 ∷ 0 ∷ 0 ∷ 0 ∷ 0 ∷ 0 ∷ 0 ∷ 0 ∷ 0 ∷ 0
    ∷ 0 ∷ 0 ∷ 0 ∷ 0 ∷ 0 ∷ 0 ∷ 0 ∷ 0 ∷ 0 ∷ 16 ∷ 32 ∷ 512 ∷ 128 ∷ 0 ∷ 32 ∷ 32 ∷ 256 ∷ 0 ∷ 0 ∷ 32 ∷ 32
    ∷ 0 ∷ 32 ∷ 0 ∷ 32 ∷ 7 ∷ 7 ∷ 7 ∷ 7 ∷ 7 ∷ 7 ∷ 7 ∷ 7 ∷ 5 ∷ 5 ∷ 0 ∷ 0 ∷ 32 ∷ 32 ∷ 32 ∷ 0 ∷ 0 ∷ 12
    ∷ 12 ∷ 12 ∷ 12 ∷ 12 ∷ 12 ∷ 8 ∷ 8 ∷ 8 ∷ 8 ∷ 8 ∷ 8 ∷ 8 ∷ 8 ∷ 8 ∷ 8 ∷ 8 ∷ 8 ∷ 8 ∷ 8 ∷ 8 ∷ 8 ∷ 8 ∷ 8
    ∷ 8 ∷ 8 ∷ 0 ∷ 0 ∷ 0 ∷ 32 ∷ 8 ∷ 0 ∷ 12 ∷ 12 ∷ 12 ∷ 12 ∷ 12 ∷ 12 ∷ 8 ∷ 8 ∷ 8 ∷ 8 ∷ 8 ∷ 8 ∷ 8 ∷ 8
    ∷ 8 ∷ 8 ∷ 8 ∷ 8 ∷ 8 ∷ 8 ∷ 8 ∷ 8 ∷ 8 ∷ 8 ∷ 8 ∷ 8 ∷ 0 ∷ 32 ∷ 0 ∷ 0 ∷ 0 ∷ 0 ∷ 0 ∷ 0 ∷ 0 ∷ 0 ∷ 0 ∷ 0
    ∷ 0 ∷ 0 ∷ 0 ∷ 0 ∷ 0 ∷ 0 ∷ 0 ∷ 0 ∷ 0 ∷ 0 ∷ 0 ∷ 0 ∷ 0 ∷ 0 ∷ 0 ∷ 0 ∷ 0 ∷ 0 ∷ 0 ∷ 0 ∷ 0 ∷ 0 ∷ 0 ∷ 0
    ∷ 0 ∷ 0 ∷ 0 ∷ 0 ∷ 0 ∷ 0 ∷ 0 ∷ 0 ∷ 0 ∷ 0 ∷ 0 ∷ 0 ∷ 0 ∷ 0 ∷ 0 ∷ 0 ∷ 0 ∷ 0 ∷ 0 ∷ 0 ∷ 0 ∷ 0 ∷ 0 ∷ 0
    ∷ 0 ∷ 0 ∷ 0 ∷ 0 ∷ 0 ∷ 0 ∷ 0 ∷ 0 ∷ 0 ∷ 0 ∷ 0 ∷ 0 ∷ 0 ∷ 0 ∷ 0 ∷ 0 ∷ 0 ∷ 0 ∷ 0 ∷ 0 ∷ 0 ∷ 0 ∷ 0 ∷ 0
    ∷ 0 ∷ 0 ∷ 0 ∷ 0 ∷ 0 ∷ 0 ∷ 0 ∷ 0 ∷ 0 ∷ 0 ∷ 0 ∷ 0 ∷ 0 ∷ 0 ∷ 0 ∷ 0 ∷ 0 ∷ 0 ∷ 0 ∷ 0 ∷ 0 ∷ 0 ∷ 0 ∷ 0
    ∷ 0 ∷ 0 ∷ 0 ∷ 0 ∷ 0 ∷ 0 ∷ 0 ∷ 0 ∷ 0 ∷ 0 ∷ 0 ∷ 0 ∷ 0 ∷ 0 ∷ 0 ∷ 0 ∷ 0 ∷ 0 ∷ 0 ∷ 0 ∷ 0 ∷ 0 ∷ 0 ∷ 0
    ∷ 0 ∷ []

unfoldable pub class_of : ℕ → ℕ
class_of c = elim (get_elem? char_list (bit_and c 0xFF)) [ none ↦ 0 | some class ↦ class ]

-- `charList[c&_LIM] & mask != 0`, and the tests that are made of it. All but `is_xdigit` and
-- `is_newline` are called on a character alone.
unfoldable pub in_class : ℕ → ℕ → Bool
unfolding class_of
in_class mask c = not (bit_and (class_of c) mask == 0)

unfoldable pub is_space : ℕ → Bool
unfolding in_class
is_space c = in_class 0x10 c

unfoldable pub is_digit : ℕ → Bool
unfolding in_class
is_digit c = in_class 0x01 c

unfoldable pub is_xdigit : ℕ → Bool
unfolding in_class
is_xdigit c = in_class 0x04 c

unfoldable pub is_alpha : ℕ → Bool
unfolding in_class
is_alpha c = in_class 0x08 c

unfoldable pub is_alnum : ℕ → Bool
unfolding in_class
is_alnum c = in_class 0x09 c

unfoldable pub is_newline : ℕ → Bool
unfolding in_class
is_newline c = in_class 0x40 c

unfoldable pub is_quotation : ℕ → Bool
unfolding in_class
is_quotation c = in_class 0x100 c || in_class 0x200 c

-- A `*scriptWord` with what its type uses of `name` and `value`.
pub data Word : Type 0 where
  identifier : Bytes → Word
  int_constant : ℕ → Word
  string_constant : Bytes → Word

unfoldable pub skip_newline : Bytes → Bytes
skip_newline [] = []
skip_newline (c ∷ cs) = let rest = skip_newline cs in if is_newline c then rest else c ∷ cs

-- The loops of `getWord` and `getDigit`: the characters up to the first that fails the test, and the
-- input from there.
unfoldable pub get_while : (ℕ → Bool) → Bytes → Bytes × Bytes
get_while test [] = ([], [])
get_while test (c ∷ cs) =
    let (word, rest) = get_while test cs in if test c then (c ∷ word, rest) else ([], c ∷ cs)

-- `strconv.Unquote` of a text in back quotes, which may hold none itself.
unfoldable pub unquote : Bytes → Option Bytes
unquote [] = some []
unquote (c ∷ cs) = if c == b'`' then none else and_then (unquote cs) (λ text. some (c ∷ text))

-- `getLiteral` after its first quotation mark; `s` is what it has read. `none` is `ERR`.
unfoldable pub get_literal : ℕ → Bytes → Bytes → Option Word × Bytes
get_literal a s [] = (none, [])
get_literal a s (c ∷ cs) =
    let more = get_literal a (s ++ c ∷ []) cs in
    let closed : Option Word × Bytes =
      (and_then (unquote s) (λ text. some (string_constant text)), cs) in
    if is_newline c then (none, cs) else if c == a then closed else more

-- The value of a digit of `strconv.ParseUint`.
unfoldable pub digit_value : ℕ → Option ℕ
digit_value c =
    if leb b'0' c && leb c b'9'
    then some (c - b'0')
    else if leb b'a' c && leb c b'z'
    then some (c - b'a' + 10)
    else if leb b'A' c && leb c b'Z'
    then some (c - b'A' + 10)
    else none

unfoldable pub next_value : ℕ → ℕ → ℕ → Option ℕ
next_value base n c =
    and_then (digit_value c)
      (λ d. if ltb d base && ltb (n * base + d) (2 ^ 64) then some (n * base + d) else none)

unfoldable pub parse_digits : ℕ → ℕ → Bytes → Option ℕ
parse_digits base n [] = some n
parse_digits base n (c ∷ cs) = and_then (next_value base n c) (λ m. parse_digits base m cs)

-- `strconv.ParseUint(word, 0, 64)` of what `getDigit` reads, in which a digit follows a leading 0:
-- there is no prefix but the octal 0.
unfoldable pub parse_uint : Bytes → Option ℕ
parse_uint [] = none
parse_uint (c ∷ cs) = if c == b'0' then parse_digits 8 0 cs else parse_digits 10 0 (c ∷ cs)

unfoldable pub int_word : Bytes × Bytes → Option Word × Bytes
int_word (word, rest) = (and_then (parse_uint word) (λ n. some (int_constant n)), rest)

-- `getDigit` after its first character.
unfoldable pub get_digit : ℕ → Bytes → Option Word × Bytes
get_digit a [] = int_word (a ∷ [], [])
get_digit a (c ∷ cs) =
    let (word, rest) = get_while is_xdigit (c ∷ cs) in
    if a == b'0' && (not (c == b'x') && (not (c == b'X') && not (is_digit c)))
    then int_word (a ∷ [], c ∷ cs)
    else int_word (a ∷ word, rest)

unfoldable pub get_word : ℕ → Bytes → Option Word × Bytes
get_word a cs = let (word, rest) = get_while is_alnum cs in (some (identifier (a ∷ word)), rest)

-- `symbol`; `none` is `EOF` or `ERR`, which all of `charTypeList` is. Every round reads a character.
unfoldable pub symbol : ℕ → Bytes → Option Word × Bytes
symbol zero cs = (none, [])
symbol (suc fuel) [] = (none, [])
symbol (suc fuel) (c ∷ cs) =
    let after_space = symbol fuel cs in
    let after_newline = symbol fuel (skip_newline cs) in
    if is_space c
    then after_space
    else if is_newline c
    then after_newline
    else if is_alpha c
    then get_word c cs
    else if is_digit c
    then get_digit c cs
    else if is_quotation c
    then get_literal c [] cs
    else (none, cs)

-- What `symbol` gives, called again and again; after the end it gives `EOF` for ever.
unfoldable pub words : ℕ → Bytes → List (Option Word)
words zero cs = []
words (suc fuel) [] = []
words (suc fuel) (c ∷ cs) =
    let (word, rest) = symbol (suc (length cs)) (c ∷ cs) in word ∷ words fuel rest

-- `NewLex`, read to its end.
unfoldable pub lex : Bytes → List (Option Word)
lex cs = words (length cs) cs
