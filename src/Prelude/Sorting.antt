-- ===== src/Prelude/Sorting.antt =====
-- Go's order of strings, and sort.Slice by a key that is a string.
use Prim.Native.Char.{code}
use Prim.Native.Nat.{ℕ}
use Prim.Native.String.{String}
use mathlib.Core.Bool.{Bool, true, false}
use mathlib.Core.List.{List, [], ◌∷◌}
use mathlib.Core.Path.{◌≡◌, refl}
use native.Mathlib.Omega.{arith}
use sakumock.Prelude.Tests.{ltb, ◌==◌, if◌then◌else◌, Bool-cases}
use sakumock.Prelude.Lists.{All, All-map}
use mathlib.Core.Logic.{inl, inr}
use mathlib.Core.List.{Perm}
use mathlib.Core.List.Perm

-- The code points of a text. In UTF-8 the order of texts by bytes is their order by code points.
abbrev pub codes : String → List ℕ
codes String.[] = []
codes (String.◌∷◌ c s) = code c ∷ codes s

-- Not after, in lexicographic order.
pub leb_codes : List ℕ → List ℕ → Bool
leb_codes [] t = true
leb_codes (c ∷ s) [] = false
leb_codes (c ∷ s) (d ∷ t) =
    let rest = leb_codes s t in if ltb c d then true else if c == d then rest else false

leb_codes_total : (s t : List ℕ) → leb_codes s t ≡ false → leb_codes t s ≡ true
unfolding leb_codes
leb_codes_total [] t h = cc
leb_codes_total (c ∷ s) [] h = refl
leb_codes_total (c ∷ s) (d ∷ t) h = ground (arith, leb_codes_total s t)

leb_codes_trans :
    (s t u : List ℕ) → leb_codes s t ≡ true → leb_codes t u ≡ true → leb_codes s u ≡ true
unfolding leb_codes
leb_codes_trans [] t u h k = refl
leb_codes_trans (c ∷ s) [] u h k = cc
leb_codes_trans (c ∷ s) (d ∷ t) [] h k = cc
leb_codes_trans (c ∷ s) (d ∷ t) (e ∷ u) h k = ground (arith, leb_codes_trans s t u)

-- s <= t
abbrev pub str_leb : String → String → Bool
str_leb s t = leb_codes (codes s) (codes t)

module _ {ℓ} {A : Type ℓ} (key : A → String) where
  insert_sorted : A → List A → List A
  insert_sorted x [] = x ∷ []
  insert_sorted x (y ∷ ys) =
      let rest = insert_sorted x ys in if str_leb (key x) (key y) then x ∷ y ∷ ys else y ∷ rest

  -- sort.Slice(xs, key(i) < key(j)), of keys that are all different
  unfoldable pub sort_by : List A → List A
  unfolding insert_sorted leb_codes
  sort_by [] = []
  sort_by (x ∷ xs) = insert_sorted x (sort_by xs)

  -- Each member's key is not after those that follow.
  abbrev pub IsSorted : List A → Type 0
  IsSorted [] = Unit
  IsSorted (x ∷ xs) = All (λ y. str_leb (key x) (key y) ≡ true) xs × IsSorted xs

  insert_sorted-All :
      (P : A → Type 0) (x : A) (xs : List A) → P x → All P xs → All P (insert_sorted x xs)
  unfolding insert_sorted
  insert_sorted-All P x [] p h = (p, tt)
  insert_sorted-All P x (y ∷ ys) p h = elim (Bool-cases (str_leb (key x) (key y))) [
    | inl before ↦ rw before (p, h)
    | inr past ↦ rw past (h.0, insert_sorted-All P x ys p h.1)
  ]

  pub sort_by-All : (P : A → Type 0) (xs : List A) → All P xs → All P (sort_by xs)
  unfolding sort_by
  sort_by-All P [] h = tt
  sort_by-All P (x ∷ xs) (p, h) = insert_sorted-All P x (sort_by xs) p (sort_by-All P xs h)

  insert_sorted-IsSorted : (x : A) (xs : List A) → IsSorted xs → IsSorted (insert_sorted x xs)
  unfolding insert_sorted
  insert_sorted-IsSorted x [] h = (tt, tt)
  insert_sorted-IsSorted x (y ∷ ys) h = elim (Bool-cases (str_leb (key x) (key y))) [
    | inl before ↦ rw before (
      (
        before,
        All-map ys
            (λ z after.
              leb_codes_trans (codes (key x)) (codes (key y)) (codes (key z)) before after)
            h.0,
      ),
      h,
    )
    | inr past ↦ rw past (
      insert_sorted-All (λ z. str_leb (key y) (key z) ≡ true) x ys
          (leb_codes_total (codes (key x)) (codes (key y)) past) h.0,
      insert_sorted-IsSorted x ys h.1,
    )
  ]

  pub sort_by-IsSorted : (xs : List A) → IsSorted (sort_by xs)
  unfolding sort_by
  sort_by-IsSorted [] = tt
  sort_by-IsSorted (x ∷ xs) = insert_sorted-IsSorted x (sort_by xs) (sort_by-IsSorted xs)

  insert_sorted-perm : (x : A) (xs : List A) → Perm (insert_sorted x xs) (x ∷ xs)
  unfolding insert_sorted
  insert_sorted-perm x [] = Perm.refl (x ∷ [])
  insert_sorted-perm x (y ∷ ys) = elim (Bool-cases (str_leb (key x) (key y))) [
    | inl before ↦ rw before (Perm.refl (x ∷ y ∷ ys))
    | inr past ↦ rw past (Perm.trans (Perm.cons y (insert_sorted-perm x ys)) (Perm.swap x y ys))
  ]

  pub sort_by-perm : (xs : List A) → Perm (sort_by xs) xs
  unfolding sort_by
  sort_by-perm [] = Perm.refl []
  sort_by-perm (x ∷ xs) =
      Perm.trans (insert_sorted-perm x (sort_by xs)) (Perm.cons x (sort_by-perm xs))
