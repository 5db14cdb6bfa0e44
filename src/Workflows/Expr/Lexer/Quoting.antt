-- ===== src/Workflows/Expr/Lexer/Quoting.antt =====
-- Quoted texts, and what the lexer of workflows/expr/lexer.go reads of them.
use Prim.Native.Char.{Char, code}
use sakumock.Workflows.Expr.Lexer.{Runes, unescape, read_string}
use mathlib.Core.Path.{subst}
use sakumock.Prelude.{
  ℕ, ◌+◌, ◌≡◌, refl, ap, sym, ◌∙◌, ◌⊎◌, inl, inr, [], ◌∷◌, ◌++◌, true, false, ok, Char-path, ◌==◌,
  ==_iff, length, length-append, append_assoc, arith, if◌then◌else◌, Bool-cases,
}

-- A rune of a text between quotes
escape_rune : Char → Char → Runes
escape_rune quote c =
    if code c == b'\n'
    then "\\" ∷ "n" ∷ []
    else if code c == b'\t'
    then "\\" ∷ "t" ∷ []
    else if code c == b'\r'
    then "\\" ∷ "r" ∷ []
    else if code c == b'\\'
    then "\\" ∷ "\\" ∷ []
    else if code c == code quote
    then "\\" ∷ c ∷ []
    else c ∷ []

-- A text between quotes, without the quotes
unfoldable pub escape : Char → Runes → Runes
unfolding escape_rune
escape quote [] = []
escape quote (c ∷ s) = escape_rune quote c ++ escape quote s

module _ (quote : Char) (proper : (code quote ≡ 34) ⊎ (code quote ≡ 39)) where
  -- A rune that stands for itself
  read_string-plain :
      (c : Char) (t v : Runes) (n : ℕ)
      → (code c == code quote) ≡ false
      → (code c == 92) ≡ false
      → read_string (code quote) t ≡ ok (v, n)
      → read_string (code quote) (c ∷ t) ≡ ok (c ∷ v, 1 + n)
  unfolding read_string
  read_string-plain c [] v n other plain e = absurd (cc e)
  read_string-plain c (d ∷ t) v n other plain e = rw (read_string, other, plain, e) refl

  -- A backslash and a rune
  read_string-escaped :
      (c d x : Char) (t v : Runes) (n : ℕ)
      → unescape d ≡ x ∷ []
      → code x ≡ code c
      → read_string (code quote) t ≡ ok (v, n)
      → read_string (code quote) ("\\" ∷ d ∷ t) ≡ ok (c ∷ v, 2 + n)
  unfolding read_string
  read_string-escaped c d x t v n u same e =
      let other : (92 == code quote) ≡ false = elim proper [
        | inl q ↦ rw q refl
        | inr q ↦ rw q refl
      ] in
      rw (read_string, other, e, u, Char-path x c same) refl

  unescape-quote : unescape quote ≡ quote ∷ []
  unfolding unescape
  unescape-quote = elim proper [
    | inl q ↦ rw (unescape, q) (ap (λ x. x ∷ []) (Char-path "\"" quote (sym q)))
    | inr q ↦ rw (unescape, q) (ap (λ x. x ∷ []) (Char-path "'" quote (sym q)))
  ]

  read_string-escape_rune :
      (c : Char) (t v : Runes) (n : ℕ)
      → read_string (code quote) t ≡ ok (v, n)
      → read_string (code quote) (escape_rune quote c ++ t)
        ≡ ok (c ∷ v, length (escape_rune quote c) + n)
  unfolding escape_rune unescape
  read_string-escape_rune c t v n e = elim (Bool-cases (code c == 10)) [
    | inl k ↦ rw (escape_rune, k) (read_string-escaped c "n" "\n" t v n refl (same 10 k) e)
    | inr k₀ ↦ elim (Bool-cases (code c == 9)) [
      | inl k ↦ rw (escape_rune, k₀, k) (read_string-escaped c "t" "\t" t v n refl (same 9 k) e)
      | inr k₁ ↦ elim (Bool-cases (code c == 13)) [
        | inl k ↦
            rw (escape_rune, k₀, k₁, k) (read_string-escaped c "r" "\r" t v n refl (same 13 k) e)
        | inr k₂ ↦ elim (Bool-cases (code c == 92)) [
          | inl k ↦
              rw (escape_rune, k₀, k₁, k₂, k)
                (read_string-escaped c "\\" "\\" t v n refl (same 92 k) e)
          | inr k₃ ↦ elim (Bool-cases (code c == code quote)) [
            | inl k ↦
                rw (escape_rune, k₀, k₁, k₂, k₃, k)
                  (read_string-escaped c c quote t v n
                    (subst (λ x. unescape x ≡ quote ∷ []) (Char-path quote c (same (code quote) k))
                      unescape-quote)
                    (same (code quote) k) e)
            | inr k ↦ rw (escape_rune, k₀, k₁, k₂, k₃, k) (read_string-plain c t v n k k₃ e)
          ]
        ]
      ]
    ]
  ]
    where
      same : (m : ℕ) → (code c == m) ≡ true → m ≡ code c
      same m h = sym ((==_iff (code c) m).0 h)

  read_string-quote : (rest : Runes) → read_string (code quote) (quote ∷ rest) ≡ ok ([], 1)
  unfolding read_string
  read_string-quote [] =
      let closing : (code quote == code quote) ≡ true = (==_iff (code quote) (code quote)).1 refl in
      rw (read_string, closing) refl
  read_string-quote (d ∷ rest) =
      let closing : (code quote == code quote) ≡ true = (==_iff (code quote) (code quote)).1 refl in
      rw (read_string, closing) refl

  -- readString reads a quoted text back, whatever follows: of any text, with its newlines, tabs,
  -- carriage returns, backslashes and quotes escaped, between double or between single quotes. It
  -- reads all of the text and its closing quote.
  read_string-escape :
      (s rest : Runes)
      → read_string (code quote) (escape quote s ++ (quote ∷ rest))
        ≡ ok (s, length (escape quote s) + 1)
  unfolding escape
  read_string-escape [] rest = read_string-quote rest
  read_string-escape (c ∷ s) rest =
      let after = escape quote s ++ (quote ∷ rest) in
      let size : length (escape_rune quote c) + (length (escape quote s) + 1)
          ≡ length (escape_rune quote c ++ escape quote s) + 1 =
        omega (arith, length-append (escape_rune quote c) (escape quote s)) in
      ap (λ l. read_string (code quote) l)
        (append_assoc (escape_rune quote c) (escape quote s) (quote ∷ rest))
      ∙ read_string-escape_rune c after s (length (escape quote s) + 1) (read_string-escape s rest)
      ∙ ap (λ k. ok (c ∷ s, k)) size
