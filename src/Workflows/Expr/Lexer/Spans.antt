-- ===== src/Workflows/Expr/Lexer/Spans.antt =====
-- Where the tokens of workflows/expr/lexer.go stand in the input.
use Prim.Native.Char.{Char, code}
use sakumock.Workflows.Expr.Syntax.{TokenType, Token, Tokens}
use sakumock.Workflows.Expr.Lexer.{
  Runes, runes, text, LexError, out_of_fuel, unexpected_character, look_ahead, is_digit,
  count_while, symbol, read_string, string_token, number_token, is_ident_start, is_ident_part,
  read_ident, next_token, tokenize_from, tokenize,
}
use sakumock.Workflows.Expr.Lexer.Counts.{
  Within, count_while-le, count_while-positive, take-count_while, read_string-Within,
  read_number-bounds,
}
use sakumock.Workflows.Expr.Lexer.Spelling.{codes-text, symbol-take}
use mathlib.Core.Path.{subst}
use sakumock.Prelude.{
  is_space, ℕ, zero, suc, ◌+◌, ◌<◌, ◌≤◌, ◌≡◌, ◌≢◌, refl, ap, ◌∙◌, ◌⊎◌, inl, inr, String, [], ◌∷◌,
  ◌++◌, map, Bool, true, false, ◌||◌, Result, ok, err, bind, ◌==◌, length, take, drop, length-take,
  length-drop, take_of_length-le, codes, All, arith, if◌then◌else◌, Option-cases,
}

-- What spells the token: a quoted text, or the token's own text
abbrev pub Spells : Token → Runes → Type 0
Spells t lexeme = (t.typ ≡ TokenType.string) ⊎ (codes t.val ≡ map code lexeme)

abbrev pub Spaces : Runes → Type 0
Spaces s = All (λ c. is_space (code c) ≡ true) s

-- The runes from the position on are the tokens, each at its position, with spaces around them only.
pub data Lexes : ℕ → Runes → Tokens → Type 0 where
  done :
      (pos : ℕ) (spaces : Runes) (t : Token)
      → Spaces spaces
      → t.typ ≡ TokenType.eof
      → t.pos ≡ pos + length spaces
      → Lexes pos spaces (t ∷ [])
  next :
      (pos : ℕ) (spaces lexeme rest : Runes) (t : Token) (tokens : Tokens)
      → Spaces spaces
      → t.pos ≡ pos + length spaces
      → Spells t lexeme
      → 0 < length lexeme
      → Lexes (t.pos + length lexeme) rest tokens
      → Lexes pos (spaces ++ (lexeme ++ rest)) (t ∷ tokens)

take-drop : (n : ℕ) (s : Runes) → take n s ++ drop n s ≡ s
take-drop zero s = refl
take-drop (suc n) [] = refl
take-drop (suc n) (c ∷ s) = ap (λ l. c ∷ l) (take-drop n s)

module _ (wide_letter : ℕ → Bool) where
  -- What a turn of the loop reads of the runes
  abbrev Reads : ℕ → Runes → Result LexError (Token × ℕ) → Type 0
  Reads pos s (ok (t, n)) = (t.pos ≡ pos) × Spells t (take n s) × (0 < n) × (n ≤ length s)
  Reads pos s (err e) = e ≢ out_of_fuel

  string_token-Reads :
      (pos : ℕ) (c : Char) (s : Runes) → Reads pos (c ∷ s) (string_token pos (c ∷ s))
  unfolding string_token
  string_token-Reads pos c s = part (read_string (code c) s) (read_string-Within (code c) s)
    where
      part :
          (r : Result LexError (Runes × ℕ))
          → Within (length s) r
          → Reads pos (c ∷ s) (
              bind r λ (value, n).
                ok (record { typ = TokenType.string; val = text value; pos = pos }, 1 + n))
      part (err e) h = h
      part (ok (value, n)) h = (refl, inl refl, omega arith, omega (arith, h.1))

  number_token-Reads :
      (pos : ℕ) (c : Char) (s : Runes)
      → is_digit (code c) ≡ true
      → Reads pos (c ∷ s) (ok (number_token pos (c ∷ s)))
  unfolding number_token
  number_token-Reads pos c s d =
      let (positive, below) = read_number-bounds c s d in
      (refl, inr (codes-text _), positive, below)

  read_ident-Reads :
      (pos : ℕ) (c : Char) (s : Runes)
      → is_ident_start wide_letter (code c) ≡ true
      → Reads pos (c ∷ s) (ok (read_ident wide_letter pos (c ∷ s)))
  unfolding read_ident
  read_ident-Reads pos c s i = (
    refl,
    inr (codes-text _),
    count_while-positive (is_ident_part wide_letter) c s (rw i refl),
    count_while-le (is_ident_part wide_letter) (c ∷ s),
  )

  choose :
      (pos : ℕ) (s : Runes) (test : Bool) (r r' : Result LexError (Token × ℕ))
      → (test ≡ true → Reads pos s r)
      → (test ≡ false → Reads pos s r')
      → Reads pos s (if test then r else r')
  choose pos s true r r' h k = h refl
  choose pos s false r r' h k = k refl

  next_token-Reads :
      (pos : ℕ) (c : Char) (s : Runes) → Reads pos (c ∷ s) (next_token wide_letter pos (c ∷ s))
  unfolding next_token
  next_token-Reads pos c s =
      elim (Option-cases (symbol (code c) (look_ahead 0 s) (look_ahead 1 s))) [
        | inr ((typ, val), e) ↦
            let (spelled, positive, below) = symbol-take c s typ val e in
            rw (next_token, e) (refl, inr spelled, positive, below)
        | inl e ↦
            let here = c ∷ s in
            let is_word = is_ident_start wide_letter (code c) in
            let read_word = ok (read_ident wide_letter pos here) in
            let word = if is_word then read_word else err unexpected_character in
            let word-Reads =
              choose pos here is_word read_word (err unexpected_character)
                (read_ident-Reads pos c s) λ i x. cc x in
            let number = ok (number_token pos here) in
            let number-Reads =
              choose pos here (is_digit (code c)) number word (number_token-Reads pos c s)
                λ d. word-Reads in
            rw (next_token, e)
              (choose pos here (code c == 34 || code c == 39) (string_token pos here)
                (if is_digit (code c) then number else word) (λ q. string_token-Reads pos c s)
                λ q. number-Reads)
      ]

  -- What tokenize makes of the runes from a position
  abbrev pub Lexed : ℕ → Runes → Result LexError Tokens → Type 0
  Lexed pos s (ok tokens) = Lexes pos s tokens
  Lexed pos s (err e) = e ≢ out_of_fuel

  -- A token, in front of what the rest of the loop makes of the rest
  next-Lexed :
      (pos n : ℕ) (s : Runes) (t : Token) (r : Result LexError Tokens)
      → t.pos ≡ pos + count_while is_space s
      → Spells t (take n (drop (count_while is_space s) s))
      → 0 < n
      → n ≤ length (drop (count_while is_space s) s)
      → Lexed (pos + count_while is_space s + n) (drop n (drop (count_while is_space s) s)) r
      → Lexed pos s (bind r λ tokens. ok (t ∷ tokens))
  next-Lexed pos n s t (err e) at spelled positive below h = h
  next-Lexed pos n s t (ok tokens) at spelled positive below h =
      let k = count_while is_space s in
      let whole : take k s ++ (take n (drop k s) ++ drop n (drop k s)) ≡ s =
        ap (λ l. take k s ++ l) (take-drop n (drop k s)) ∙ take-drop k s in
      let spaces : length (take k s) ≡ k =
        omega (arith, length-take k s, count_while-le is_space s) in
      let taken : length (take n (drop k s)) ≡ n = omega (arith, length-take n (drop k s), below) in
      let after : t.pos + length (take n (drop k s)) ≡ pos + k + n = omega (arith, at, taken) in
      subst (λ l. Lexes pos l (t ∷ tokens)) whole
        (Lexes.next pos (take k s) (take n (drop k s)) (drop n (drop k s)) t tokens
          (take-count_while is_space s) (omega (arith, at, spaces)) spelled
          (omega (arith, taken, positive)) (rw after h))

  -- A turn, by what it reads at its first rune
  turn-Lexed :
      (pos : ℕ) (s : Runes) (r : Result LexError (Token × ℕ))
      (go_on : Token → ℕ → Result LexError Tokens)
      → Reads (pos + count_while is_space s) (drop (count_while is_space s) s) r
      → ((t : Token) (n : ℕ)
          → 0 < n
          → n ≤ length (drop (count_while is_space s) s)
          → Lexed
              (pos + count_while is_space s + n)
              (drop n (drop (count_while is_space s) s))
              (go_on t n))
      → Lexed pos s (bind r λ (t, n). bind (go_on t n) λ tokens. ok (t ∷ tokens))
  turn-Lexed pos s (err e) go_on h k = h
  turn-Lexed pos s (ok (t, n)) go_on h k =
      let (at, spelled, positive, below) = h in
      next-Lexed pos n s t (go_on t n) at spelled positive below (k t n positive below)

  -- A turn of the loop, when the turns that are left do
  tokenize_turn-Lexed :
      (fuel pos : ℕ) (s rest : Runes)
      → length s < suc fuel
      → drop (count_while is_space s) s ≡ rest
      → ((pos' : ℕ) (s' : Runes)
          → length s' < fuel
          → Lexed pos' s' (tokenize_from wide_letter fuel pos' s'))
      → Lexed pos s (tokenize_from wide_letter (suc fuel) pos s)
  unfolding tokenize_from
  tokenize_turn-Lexed fuel pos s [] h e below =
      let spaces = count_while is_space s in
      let all : spaces ≡ length s =
        omega (arith, ap length e, length-drop spaces s, count_while-le is_space s) in
      rw (tokenize_from, e)
        (Lexes.done pos s _
          (subst Spaces (take_of_length-le spaces s (omega (arith, all)))
            (take-count_while is_space s))
          refl (omega (arith, all)))
  tokenize_turn-Lexed fuel pos s (c ∷ s') h e below =
      let spaces = count_while is_space s in
      rw (tokenize_from, e)
        (turn-Lexed pos s (next_token wide_letter (pos + spaces) (c ∷ s'))
          (λ t n. tokenize_from wide_letter fuel (pos + spaces + n) (drop n (c ∷ s')))
          (rw e (next_token-Reads (pos + spaces) c s'))
          λ t n positive fits. rw e (
            below (pos + spaces + n) (drop n (c ∷ s')) (
              omega
                (arith, h, positive, ap length e, length-drop spaces s, length-drop n (c ∷ s')))))

  tokenize_from-Lexed :
      (fuel pos : ℕ) (s : Runes)
      → length s < fuel
      → Lexed pos s (tokenize_from wide_letter fuel pos s)
  tokenize_from-Lexed zero pos s h = absurd (omega (arith, h))
  tokenize_from-Lexed (suc fuel) pos s h =
      tokenize_turn-Lexed fuel pos s (drop (count_while is_space s) s) h refl
        λ pos' s' lt. tokenize_from-Lexed fuel pos' s' lt

  -- tokenize returns one of the lexer's errors, or tokens that the input is made of: each but the last
  -- stands at its position and is spelled there by its own text, unless it is a quoted text; between
  -- them, before and after are spaces only; the last is that of the end. The fuel of the model's loop
  -- never runs out.
  pub tokenize-Lexed : (input : String) → Lexed 0 (runes input) (tokenize wide_letter input)
  unfolding tokenize
  tokenize-Lexed input =
      tokenize_from-Lexed (suc (length (runes input))) 0 (runes input) (omega arith)
