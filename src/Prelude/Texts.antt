-- ===== src/Prelude/Texts.antt =====
-- Go's operations on strings.
use Prim.Native.Char.{Char, code}
use Prim.Native.Nat.{ℕ, ◌+◌, ◌/◌, ◌%◌}
use Prim.Native.String.{String, ◌++◌}
use mathlib.Core.Bool.{Bool, ◌&&◌, ◌||◌}
use mathlib.Core.List.{List, [], ◌∷◌, ◌++◌ as join}
use mathlib.Core.Option.{Option, none, some}
use sakumock.Prelude.Tests.{ltb, leb, ◌==◌, str_eq, if◌then◌else◌}

-- s + t
abbrev pub concat : String → String → String
concat s t = s ++ t

-- The bytes of a code point in UTF-8
abbrev pub utf8_size : ℕ → ℕ
utf8_size c = if ltb c 128 then 1 else if ltb c 2048 then 2 else if ltb c 65536 then 3 else 4

abbrev pub byte_length : List ℕ → ℕ
byte_length [] = 0
byte_length (c ∷ s) = utf8_size c + byte_length s

-- []byte(s): the UTF-8 of a code point, and of a text
abbrev pub utf8 : ℕ → List ℕ
utf8 c =
    if ltb c 128
    then c ∷ []
    else if ltb c 2048
    then (192 + c / 64) ∷ (128 + c % 64) ∷ []
    else if ltb c 65536
    then (224 + c / 4096) ∷ (128 + c / 64 % 64) ∷ (128 + c % 64) ∷ []
    else (240 + c / 262144) ∷ (128 + c / 4096 % 64) ∷ (128 + c / 64 % 64) ∷ (128 + c % 64) ∷ []

unfoldable pub utf8_bytes : List ℕ → List ℕ
utf8_bytes [] = []
utf8_bytes (c ∷ s) = join (utf8 c) (utf8_bytes s)

-- unicode.IsSpace
unfoldable pub is_space : ℕ → Bool
is_space c =
    (leb 9 c && leb c 13)
    || c == 32
    || c == 133
    || c == 160
    || c == 5760
    || (leb 8192 c && leb c 8202)
    || c == 8232
    || c == 8233
    || c == 8239
    || c == 8287
    || c == 12288

-- strings.Cut at a code point: what is before it, and what is after it where there is one
unfoldable pub cut : ℕ → String → String × Option String
cut sep String.[] = (String.[], none)
cut sep (String.◌∷◌ c s) =
    let (before, after) = cut sep s in
    if code c == sep then (String.[], some s) else (String.◌∷◌ c before, after)

-- The first text with the rune in front
push : Char → List String → List String
push c [] = String.◌∷◌ c String.[] ∷ []
push c (s ∷ l) = String.◌∷◌ c s ∷ l

-- strings.Split at a code point
unfoldable pub split : ℕ → String → List String
unfolding push
split sep String.[] = String.[] ∷ []
split sep (String.◌∷◌ c s) =
    let rest = split sep s in if code c == sep then String.[] ∷ rest else push c rest

non_empty : List String → List String
non_empty [] = []
non_empty (s ∷ l) = let rest = non_empty l in if str_eq s "" then rest else s ∷ rest

split_spaces : String → List String
unfolding push is_space
split_spaces String.[] = String.[] ∷ []
split_spaces (String.◌∷◌ c s) =
    let rest = split_spaces s in if is_space (code c) then String.[] ∷ rest else push c rest

-- strings.Fields
unfoldable pub fields : String → List String
unfolding split_spaces non_empty
fields s = non_empty (split_spaces s)
