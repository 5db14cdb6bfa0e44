-- ===== src/Workflows/Expr/Functions/FindAll.antt =====
-- text.findAll of workflows/expr/funcs.go: what its loop finds, and where it does not end.
use sakumock.Workflows.Expr.Functions.{starts_with, index_of, find_all, positions_of, text_find_all}
use sakumock.Workflows.Expr.Syntax.{Value, value, no_values}
use sakumock.Workflows.Expr.Value.{Floats, to_string}
use sakumock.Prelude.{
  ℕ, zero, suc, ◌+◌, ◌-◌, ◌≤◌, ◌<◌, List, [], ◌∷◌, Bool, true, false, none, some, length, drop, ◌≡◌,
  refl, ◌∙◌, arith, ap, Option-cases, inl, inr, length-drop, drop_of_length-le, String, codes,
  utf8_bytes,
}

-- The text `sub` stands at position i.
unfoldable pub stands_at : List ℕ → List ℕ → ℕ → Bool
stands_at source sub i = starts_with sub (drop i source)

-- The positions of the occurrences from `start` on, the first one first, each after the end of the one
-- before
pub data Occurrences (source sub : List ℕ) : ℕ → List ℕ → Type 0 where
  no_more :
      {start : ℕ}
      → ((j : ℕ) → start ≤ j → stands_at source sub j ≡ false)
      → Occurrences source sub start []
  occurrence :
      {start i : ℕ} {positions : List ℕ}
      → start ≤ i
      → stands_at source sub i ≡ true
      → ((j : ℕ) → start ≤ j → j < i → stands_at source sub j ≡ false)
      → Occurrences source sub (i + length sub) positions
      → Occurrences source sub start (i ∷ positions)

drop-drop : (n m : ℕ) (s : List ℕ) → drop n (drop m s) ≡ drop (m + n) s
drop-drop n zero s = ap (λ k. drop k s) (omega arith)
drop-drop n (suc m) [] =
    grind (arith, drop_of_length-le {A = ℕ} n [], drop_of_length-le {A = ℕ} (suc m + n) [])
drop-drop n (suc m) (c ∷ s) =
    let e : suc (m + n) ≡ suc m + n = omega arith in drop-drop n m s ∙ ap (λ k. drop k (c ∷ s)) e

length-starts_with : (sub s : List ℕ) → starts_with sub s ≡ true → length sub ≤ length s
unfolding starts_with
length-starts_with [] s h = omega arith
length-starts_with (b ∷ sub) [] h = grind arith
length-starts_with (b ∷ sub) (c ∷ s) h = ground (arith, length-starts_with sub s)

index_of-none :
    (sub s : List ℕ) (j : ℕ) → index_of sub s ≡ none → starts_with sub (drop j s) ≡ false
unfolding index_of
index_of-none sub [] zero h = ground arith
index_of-none sub [] (suc j) h = ground arith
index_of-none sub (c ∷ s) zero h = ground arith
index_of-none sub (c ∷ s) (suc j) h = ground (arith, index_of-none sub s j)

index_of-some :
    (sub s : List ℕ) (i : ℕ) → index_of sub s ≡ some i → starts_with sub (drop i s) ≡ true
unfolding index_of
index_of-some sub [] i h = ground arith
index_of-some sub (c ∷ s) zero h = ground arith
index_of-some sub (c ∷ s) (suc i) h = ground (arith, index_of-some sub s i)

index_of-first :
    (sub s : List ℕ) (i j : ℕ)
    → index_of sub s ≡ some i
    → j < i
    → starts_with sub (drop j s) ≡ false
unfolding index_of
index_of-first sub [] i j h lt = ground arith
index_of-first sub (c ∷ s) i zero h lt = ground arith
index_of-first sub (c ∷ s) zero (suc j) h lt = absurd (omega arith)
index_of-first sub (c ∷ s) (suc i) (suc j) h lt = ground (arith, index_of-first sub s i j)

index_of-stands :
    (source sub : List ℕ) (start i : ℕ)
    → index_of sub (drop start source) ≡ some i
    → stands_at source sub (start + i) ≡ true
unfolding stands_at
index_of-stands source sub start i h =
    grind (arith, index_of-some sub (drop start source) i h, drop-drop i start source)

-- A position from `start` on, as one of the rest of the text
rest-stands :
    (source sub : List ℕ) (start j : ℕ)
    → start ≤ j
    → starts_with sub (drop (j - start) (drop start source)) ≡ false
    → stands_at source sub j ≡ false
unfolding stands_at
rest-stands source sub start j le h =
    let there : start + (j - start) ≡ j = omega arith in
    grind (arith, drop-drop (j - start) start source, ap (λ k. drop k source) there)

index_of-inside :
    (source sub : List ℕ) (start i : ℕ)
    → 1 ≤ length sub
    → index_of sub (drop start source) ≡ some i
    → start + i + length sub ≤ length source
index_of-inside source sub start i le h = omega (
  arith,
  length-starts_with sub (drop i (drop start source)) (index_of-some sub (drop start source) i h),
  length-drop i (drop start source),
  length-drop start source,
)

find_all-Occurrences :
    (fuel : ℕ) (source sub : List ℕ) (start : ℕ)
    → 1 ≤ length sub
    → start ≤ length source
    → length source < fuel + start
    → (positions : List ℕ) × (find_all fuel source sub start ≡ some positions)
      × Occurrences source sub start positions
unfolding find_all
find_all-Occurrences zero source sub start some_text inside enough = absurd (omega arith)
find_all-Occurrences (suc fuel) source sub start some_text inside enough =
    elim (Option-cases (index_of sub (drop start source))) [
      | inl none_left ↦ (
        [],
        rw (find_all, none_left) refl,
        no_more λ j le.
            rest-stands source sub start j le
              (index_of-none sub (drop start source) (j - start) none_left),
      )
      | inr (i, here) ↦
          let fits = index_of-inside source sub start i some_text here in
          let (positions, found, rest) =
            find_all-Occurrences fuel source sub (start + i + length sub) some_text fits
              (omega arith) in
          (
            (start + i) ∷ positions,
            rw (find_all, here, found) refl,
            occurrence (omega arith) (index_of-stands source sub start i here)
                (λ j le lt.
                  rest-stands source sub start j le
                    (index_of-first sub (drop start source) i (j - start) here (omega arith)))
                rest,
          )
    ]

-- text.findAll of two texts, the second not empty, is the array of the positions, in bytes, at which
-- the second stands in the first: the first occurrence, then the first one after its end, and so on,
-- until none is left.
pub text_find_all-Occurrences :
    (F : Floats) (to_json : Value → String) (source sub : String)
    → 1 ≤ length (utf8_bytes (codes sub))
    → (positions : List ℕ) × (text_find_all F to_json
          (value (Value.string source) (value (Value.string sub) no_values))
        ≡ some (Value.array (positions_of F to_json positions)))
      × Occurrences (utf8_bytes (codes source)) (utf8_bytes (codes sub)) 0 positions
unfolding text_find_all to_string
text_find_all-Occurrences F to_json source sub some_text =
    let bytes = utf8_bytes (codes source) in
    let (positions, found, there) =
      find_all-Occurrences (suc (length bytes)) bytes (utf8_bytes (codes sub)) 0 some_text
        (omega arith) (omega arith) in
    (positions, rw (text_find_all, found) refl, there)

index_of-empty : (s : List ℕ) → index_of [] s ≡ some 0
unfolding index_of starts_with
index_of-empty [] = refl
index_of-empty (c ∷ s) = refl

-- The loop of textFindAll never ends for an empty text: whatever the fuel, it runs out.
pub find_all-endless :
    (fuel : ℕ) (source : List ℕ) (start : ℕ) → find_all fuel source [] start ≡ none
unfolding find_all index_of
find_all-endless zero source start = refl
find_all-endless (suc fuel) source start =
    ground (arith, index_of-empty (drop start source), find_all-endless fuel source (start + 0 + 0))
