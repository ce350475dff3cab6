-- ===== src/Contract/Lexer/Words.antt =====
-- Each kind of word is read back from its text.
use raft_project.Common.{
  ℕ, suc, ◌<◌, ◌≡◌, ◌≢◌, refl, ap, ◌∙◌, Bool, true, false, some, [], ◌∷◌, ◌++◌, append_assoc,
  append-nil, arith,
}
use raft_project.Common.Tests.{◌==◌}
use raft_project.Common.Lists.{Bytes, length, All}
use raft_project.Contract.Lexer.{
  identifier, int_constant, string_constant, is_space, is_newline, is_alpha, is_digit, is_xdigit,
  is_alnum, is_quotation, get_while, unquote, get_literal, int_word, get_digit, get_word, symbol,
}
use raft_project.Contract.Lexer.Digits.{IsDigit, IsNumeral, letter_lem}

-- What follows a word: nothing, or a space.
abbrev pub Ends : Bytes → Type 0
Ends [] = Unit
Ends (c ∷ cs) = c ≡ b' '

space_ends :
    (is_xdigit b' ' ≡ false)
    × (is_alnum b' ' ≡ false)
    × (is_digit b' ' ≡ false)
    × (is_space b' ' ≡ true)
unfolding is_xdigit is_alnum is_digit is_space
space_ends = (refl, refl, refl, refl)

get_while_stops :
    (test : ℕ → Bool) (xs rest : Bytes)
    → All (λ c. test c ≡ true) xs
    → Ends rest
    → test b' ' ≡ false
    → get_while test (xs ++ rest) ≡ (xs, rest)
unfolding get_while
get_while_stops test [] [] h e s = refl
get_while_stops test [] (c ∷ rest) h e s = rw (e, s) refl
get_while_stops test (x ∷ xs) rest h e s = rw (h.0, get_while_stops test xs rest h.1 e s) refl

-- A letter and letters or digits after it.
abbrev pub IsName : Bytes → Type 0
IsName [] = ⊥
IsName (c ∷ cs) = (c < 256) × (is_alpha c ≡ true) × All (λ c. is_alnum c ≡ true) cs

pub symbol-space : (fuel : ℕ) (cs : Bytes) → symbol (suc fuel) (b' ' ∷ cs) ≡ symbol fuel cs
unfolding symbol
symbol-space fuel cs = rw space_ends.3 refl

pub symbol-name :
    (fuel : ℕ) (name rest : Bytes)
    → IsName name
    → Ends rest
    → symbol (suc fuel) (name ++ rest) ≡ (some (identifier name), rest)
unfolding symbol get_word
symbol-name fuel [] rest h e = absurd h
symbol-name fuel (c ∷ cs) rest (byte, letter, more) e =
    let (no_space, no_line) = letter_lem c byte letter in
    rw (no_space, no_line, letter, get_while_stops is_alnum cs rest more e space_ends.1) refl

All-xdigit : (cs : Bytes) → All IsDigit cs → All (λ c. is_xdigit c ≡ true) cs
All-xdigit [] h = tt
All-xdigit (c ∷ cs) h = (h.0.4, All-xdigit cs h.1)

get_digit-lone : (a : ℕ) (rest : Bytes) → Ends rest → get_digit a rest ≡ int_word (a ∷ [], rest)
unfolding get_digit get_while
get_digit-lone a [] e = refl
get_digit-lone a (c ∷ rest) e = rw (e, space_ends.0) (ground (arith, space_ends.2))

get_digit-long :
    (a c : ℕ) (cs rest : Bytes)
    → a ≢ b'0'
    → All IsDigit (c ∷ cs)
    → Ends rest
    → get_digit a (c ∷ cs ++ rest) ≡ int_word (a ∷ c ∷ cs, rest)
unfolding get_digit
get_digit-long a c cs rest first h e =
    let off : (a == b'0') ≡ false = ground arith in
    rw (off, get_while_stops is_xdigit (c ∷ cs) rest (All-xdigit (c ∷ cs) h) e space_ends.0) refl

pub symbol-number :
    (fuel n : ℕ) (ds rest : Bytes)
    → IsNumeral n ds
    → Ends rest
    → symbol (suc fuel) (ds ++ rest) ≡ (some (int_constant n), rest)
unfolding symbol int_word get_digit
symbol-number fuel n [] rest h e = absurd h
symbol-number fuel n (c ∷ []) rest (digit, more, read, first) e =
    rw (digit.0, digit.1, digit.2, digit.3, get_digit-lone c rest e, read) refl
symbol-number fuel n (c ∷ d ∷ ds) rest (digit, more, read, first) e =
    let long : (d ∷ ds) ≢ [] = λ q. omega (arith, ap length q) in
    rw (digit.0, digit.1, digit.2, digit.3, get_digit-long c d ds rest (first long) more e, read)
      refl

-- A character of a text in double quotes.
abbrev pub IsQuotable : ℕ → Type 0
IsQuotable c = (c ≢ b'"') × (c ≢ b'`') × (is_newline c ≡ false)

unquote-plain : (s : Bytes) → All IsQuotable s → unquote s ≡ some s
unfolding unquote
unquote-plain [] h = refl
unquote-plain (c ∷ s) h =
    let plain : (c == b'`') ≡ false = ground arith in rw (plain, unquote-plain s h.1) refl

quote_class :
    (is_space b'"' ≡ false)
    × (is_newline b'"' ≡ false)
    × (is_alpha b'"' ≡ false)
    × (is_digit b'"' ≡ false)
    × (is_quotation b'"' ≡ true)
unfolding is_space is_newline is_alpha is_digit is_quotation
quote_class = (refl, refl, refl, refl, refl)

get_literal-plain :
    (s t rest : Bytes)
    → unquote (s ++ t) ≡ some (s ++ t)
    → All IsQuotable t
    → get_literal b'"' s (t ++ b'"' ∷ rest) ≡ (some (string_constant (s ++ t)), rest)
unfolding get_literal
get_literal-plain s [] rest u h =
    let at_end : unquote s ≡ some s = rw (← append-nil s) u in
    rw (quote_class.1, at_end, append-nil s) refl
get_literal-plain s (c ∷ t) rest u h =
    let open_yet : (c == b'"') ≡ false = ground arith in
    let more : unquote ((s ++ c ∷ []) ++ t) ≡ some ((s ++ c ∷ []) ++ t) =
      rw (append_assoc s (c ∷ []) t) u in
    rw (h.0.2, open_yet)
      (get_literal-plain (s ++ c ∷ []) t rest more h.1 ∙ rw (append_assoc s (c ∷ []) t) refl)

pub symbol-text :
    (fuel : ℕ) (t rest : Bytes)
    → All IsQuotable t
    → symbol (suc fuel) (b'"' ∷ (t ++ b'"' ∷ rest)) ≡ (some (string_constant t), rest)
unfolding symbol
symbol-text fuel t rest h =
    rw (quote_class.0, quote_class.1, quote_class.2, quote_class.3, quote_class.4)
      (get_literal-plain [] t rest (unquote-plain t h) h)
