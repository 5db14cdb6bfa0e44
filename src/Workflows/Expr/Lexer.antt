-- ===== src/Workflows/Expr/Lexer.antt =====
-- The lexer of workflows/expr/lexer.go. The state is the runes that are left, l.input[l.pos:], with
-- the position l.pos of the first. Of unicode.IsLetter the code points below 128 are modelled; what it
-- says of the others is the parameter `wide_letter`.
pub mod Counts
pub mod Spelling
pub mod Spans
pub mod Quoting
use Prim.Native.Char.{Char, code}
use sakumock.Workflows.Expr.Syntax.{TokenType, Token, Tokens}
use sakumock.Prelude.{
  is_space, ℕ, zero, suc, ◌+◌, String, List, [], ◌∷◌, Bool, true, false, Option, none, some, Result,
  ok, err, bind, ltb, leb, ◌==◌, ◌++◌, ◌&&◌, ◌||◌, length, take, drop, str_eq, if◌then◌else◌,
}

abbrev pub Runes : Type 0
Runes = List Char

-- []rune(s)
abbrev pub runes : String → Runes
runes String.[] = []
runes (String.◌∷◌ c s) = c ∷ runes s

-- string(runes)
abbrev pub text : Runes → String
text [] = String.[]
text (c ∷ s) = String.◌∷◌ c (text s)

pub data LexError : Type 0 where
  unexpected_character unterminated_escape unterminated_string : LexError
  -- The fuel of the loop has run out.
  out_of_fuel : LexError

-- l.peek() is look_ahead 0.
abbrev pub look_ahead : ℕ → Runes → ℕ
look_ahead n [] = 0
look_ahead zero (c ∷ s) = code c
look_ahead (suc n) (c ∷ s) = look_ahead n s

abbrev pub is_digit : ℕ → Bool
is_digit c = leb b'0' c && leb c b'9'

-- The runes up to the first that fails the test: how far a loop over them moves l.pos
unfoldable pub count_while : (ℕ → Bool) → Runes → ℕ
count_while p [] = 0
count_while p (c ∷ s) = let rest = count_while p s in if p (code c) then suc rest else 0

-- The operator or the punctuation that tokenize reads at the runes a, b, c, and its text
unfoldable pub symbol : ℕ → ℕ → ℕ → Option (TokenType × String)
symbol a b c =
    if a == b'+'
    then some (TokenType.plus, "+")
    else if a == b'-'
    then some (TokenType.minus, "-")
    else if a == b'*' && b == b'*'
    then some (TokenType.star_star, "**")
    else if a == b'*'
    then some (TokenType.star, "*")
    else if a == b'/'
    then some (TokenType.slash, "/")
    else if a == b'%'
    then some (TokenType.percent, "%")
    else if a == b'=' && b == b'=' && c == b'='
    then some (TokenType.strict_eq, "===")
    else if a == b'=' && b == b'='
    then some (TokenType.eq, "==")
    else if a == b'!' && b == b'=' && c == b'='
    then some (TokenType.strict_neq, "!==")
    else if a == b'!' && b == b'='
    then some (TokenType.neq, "!=")
    else if a == b'!'
    then some (TokenType.bang, "!")
    else if a == b'<' && b == b'='
    then some (TokenType.lte, "<=")
    else if a == b'<'
    then some (TokenType.lt, "<")
    else if a == b'>' && b == b'='
    then some (TokenType.gte, ">=")
    else if a == b'>'
    then some (TokenType.gt, ">")
    else if a == b'&' && b == b'&'
    then some (TokenType.and_and, "&&")
    else if a == b'|' && b == b'|'
    then some (TokenType.or_or, "||")
    else if a == b'?'
    then some (TokenType.question, "?")
    else if a == b':'
    then some (TokenType.colon, ":")
    else if a == b'.'
    then some (TokenType.dot, ".")
    else if a == b','
    then some (TokenType.comma, ",")
    else if a == b'('
    then some (TokenType.lparen, "(")
    else if a == b')'
    then some (TokenType.rparen, ")")
    else if a == b'['
    then some (TokenType.lbracket, "[")
    else if a == b']'
    then some (TokenType.rbracket, "]")
    else if a == b'{'
    then some (TokenType.lbrace, "{")
    else if a == b'}'
    then some (TokenType.rbrace, "}")
    else none

-- What the rune after a backslash stands for
unfoldable pub unescape : Char → Runes
unescape c =
    if code c == b'n'
    then "\n" ∷ []
    else if code c == b't'
    then "\t" ∷ []
    else if code c == b'r'
    then "\r" ∷ []
    else if code c == 92
    then "\\" ∷ []
    else if code c == 39
    then "'" ∷ []
    else if code c == 34
    then "\"" ∷ []
    else "\\" ∷ c ∷ []

-- readString, past the opening quote: the runes of the text, and how many are read
unfoldable pub read_string : ℕ → Runes → Result LexError (Runes × ℕ)
unfolding unescape
read_string quote [] = err unterminated_string
read_string quote (c ∷ []) =
    if code c == quote
    then ok ([], 1)
    else if code c == b'\\'
    then err unterminated_escape
    else err unterminated_string
read_string quote (c ∷ d ∷ s) = elim (code c == quote) [
  | true ↦ ok ([], 1)
  | false ↦ elim (code c == b'\\') [
    | true ↦ bind (read_string quote s) λ (value, n). ok (unescape d ++ value, 2 + n)
    | false ↦ bind (read_string quote (d ∷ s)) λ (value, n). ok (c ∷ value, 1 + n)
  ]
]

-- The exponent of readNumber, and readNumber: how many runes are read
unfoldable pub read_sign : Runes → ℕ
read_sign s = if look_ahead 0 s == b'+' || look_ahead 0 s == b'-' then 1 else 0

unfoldable pub read_exponent : Runes → ℕ
unfolding count_while read_sign
read_exponent [] = 0
read_exponent (c ∷ s) =
    if code c == b'e' || code c == b'E'
    then 1 + read_sign s + count_while is_digit (drop (read_sign s) s)
    else 0

abbrev pub in_mantissa : ℕ → Bool
in_mantissa c = is_digit c || c == b'.'

unfoldable pub read_number : Runes → ℕ
unfolding count_while read_exponent
read_number s =
    let mantissa = count_while in_mantissa s in mantissa + read_exponent (drop mantissa s)

unfoldable pub string_token : ℕ → Runes → Result LexError (Token × ℕ)
unfolding read_string
string_token pos s =
    bind (read_string (look_ahead 0 s) (drop 1 s))
      λ (value, n). ok (record { typ = TokenType.string; val = text value; pos = pos }, 1 + n)

unfoldable pub number_token : ℕ → Runes → Token × ℕ
unfolding read_number
number_token pos s =
    let n = read_number s in
    (record { typ = TokenType.number; val = text (take n s); pos = pos }, n)

-- The type that readIdent gives a word
unfoldable pub word_type : String → TokenType
word_type val =
    if str_eq val "true"
    then TokenType.true_word
    else if str_eq val "false"
    then TokenType.false_word
    else if str_eq val "null"
    then TokenType.null_word
    else TokenType.ident

module _ (wide_letter : ℕ → Bool) where
  -- unicode.IsLetter
  abbrev is_letter : ℕ → Bool
  is_letter c =
      if ltb c 128 then (leb b'A' c && leb c b'Z') || (leb b'a' c && leb c b'z') else wide_letter c

  abbrev pub is_ident_start : ℕ → Bool
  is_ident_start c = c == b'_' || c == b'$' || is_letter c

  abbrev pub is_ident_part : ℕ → Bool
  is_ident_part c = is_ident_start c || is_digit c

  -- readIdent
  unfoldable pub read_ident : ℕ → Runes → Token × ℕ
  unfolding word_type count_while
  read_ident pos s =
      let n = count_while is_ident_part s in
      let val = text (take n s) in (record { typ = word_type val; val = val; pos = pos }, n)

  -- A turn of tokenize's loop, at a rune that is no space: the token, and how many runes it takes
  unfoldable pub next_token : ℕ → Runes → Result LexError (Token × ℕ)
  unfolding symbol read_string read_number read_ident
  next_token pos s = elim (symbol (look_ahead 0 s) (look_ahead 1 s) (look_ahead 2 s)) [
    | some (typ, val) ↦ ok (record { typ = typ; val = val; pos = pos }, length (runes val))
    | none ↦
        if look_ahead 0 s == 34 || look_ahead 0 s == 39
        then string_token pos s
        else if is_digit (look_ahead 0 s)
        then ok (number_token pos s)
        else if is_ident_start (look_ahead 0 s)
        then ok (read_ident pos s)
        else err unexpected_character
  ]

  -- tokenize, from a position
  unfoldable pub tokenize_from : ℕ → ℕ → Runes → Result LexError Tokens
  tokenize_from zero pos s = err out_of_fuel
  tokenize_from (suc fuel) pos s =
      let spaces = count_while is_space s in
      let start = pos + spaces in
      elim (drop spaces s) [
        | [] ↦ ok (record { typ = TokenType.eof; val = ""; pos = start } ∷ [])
        | c ∷ s' ↦ bind (next_token start (c ∷ s')) λ (t, n).
            bind (tokenize_from fuel (start + n) (drop n (c ∷ s'))) λ tokens. ok (t ∷ tokens)
      ]

  -- tokenize
  unfoldable pub tokenize : String → Result LexError Tokens
  unfolding tokenize_from
  tokenize input = tokenize_from (suc (length (runes input))) 0 (runes input)
