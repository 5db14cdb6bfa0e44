-- ===== src/Prelude/Search.antt =====
-- The search of a slice for its first member that passes a test, and the changes at that member.
use mathlib.Core.Bool.{Bool, true, false, ◌||◌}
use mathlib.Core.List.{List, [], ◌∷◌, ◌++◌}
use mathlib.Core.Option.{Option, none, some}
use mathlib.Core.Path.{◌≡◌, refl, subst}
use native.Mathlib.Omega.{arith}
use sakumock.Prelude.Tests.{if◌then◌else◌, Bool-cases}
use mathlib.Core.Logic.{inl, inr}
use sakumock.Prelude.Lists.{All}

module _ {ℓ} {A : Type ℓ} (test : A → Bool) where
  -- for _, x := range xs { if test(x) { return x } }
  abbrev pub find : List A → Option A
  find [] = none
  find (x ∷ xs) = let rest = find xs in if test x then some x else rest

  abbrev pub any : List A → Bool
  any [] = false
  any (x ∷ xs) = test x || any xs

  -- for _, x := range xs { if test(x) { x.change(); return } }, of pointers
  abbrev pub change_first : (A → A) → List A → List A
  change_first f [] = []
  change_first f (x ∷ xs) = let rest = change_first f xs in if test x then f x ∷ xs else x ∷ rest

  -- for i, x := range xs { if test(x) { xs = append(xs[:i], xs[i+1:]...); return } }
  abbrev pub remove_first : List A → List A
  remove_first [] = []
  remove_first (x ∷ xs) = let rest = remove_first xs in if test x then xs else x ∷ rest

module _ {ℓ} {A : Type ℓ} where
  -- xs[len(xs)-1]
  abbrev pub last : List A → Option A
  last [] = none
  last (x ∷ []) = some x
  last (x ∷ y ∷ ys) = last (y ∷ ys)

  pub find-append :
      (test : A → Bool) (xs ys : List A) (x : A)
      → find test xs ≡ some x
      → find test (xs ++ ys) ≡ some x
  find-append test [] ys x e = grind arith
  find-append test (y ∷ xs) ys x e = ground (arith, find-append test xs ys x)

  pub find-append_none :
      (test : A → Bool) (xs ys : List A) → find test xs ≡ none → find test (xs ++ ys) ≡ find test ys
  find-append_none test [] ys e = refl
  find-append_none test (x ∷ xs) ys e = ground (arith, find-append_none test xs ys)

  pub find-passes : (test : A → Bool) (xs : List A) (x : A) → find test xs ≡ some x → test x ≡ true
  find-passes test [] x e = grind arith
  find-passes test (y ∷ xs) x e = ground (arith, find-passes test xs x)

  -- The first member that passes is found, changed, by a test that the change does not touch.
  pub find-change_first :
      (test : A → Bool) (f : A → A) (xs : List A) (x : A)
      → find test xs ≡ some x
      → test (f x) ≡ true
      → find test (change_first test f xs) ≡ some (f x)
  find-change_first test f [] x e h = grind arith
  find-change_first test f (y ∷ xs) x e h = ground (arith, find-change_first test f xs x)

  -- The change of the first member that passes one test leaves what another test finds, where no
  -- member passes both.
  pub find-change_first_other :
      (test other : A → Bool) (f : A → A) (xs : List A)
      → ((x : A) → other x ≡ true → (test x ≡ false) × (test (f x) ≡ false))
      → find test (change_first other f xs) ≡ find test xs
  find-change_first_other test other f [] apart = refl
  find-change_first_other test other f (y ∷ xs) apart =
      ground (arith, find-change_first_other test other f xs apart, apart y)

  pub find-remove_first_other :
      (test other : A → Bool) (xs : List A)
      → ((x : A) → other x ≡ true → test x ≡ false)
      → find test (remove_first other xs) ≡ find test xs
  find-remove_first_other test other [] apart = refl
  find-remove_first_other test other (y ∷ xs) apart =
      ground (arith, find-remove_first_other test other xs apart, apart y)

  pub any-find :
      (test other : A → Bool) (xs : List A) (x : A)
      → find test xs ≡ some x
      → other x ≡ true
      → any other xs ≡ true
  any-find test other [] x e h = grind arith
  any-find test other (y ∷ xs) x e h = ground (arith, any-find test other xs x)

  pub All-find {κ} :
      (P : A → Type κ) (test : A → Bool) (xs : List A) (x : A)
      → All P xs
      → find test xs ≡ some x
      → P x
  All-find P test [] x h e = absurd (grind arith)
  All-find P test (y ∷ xs) x h e = elim (Bool-cases (test y)) [
    | inl here ↦ subst P (ground arith) h.0
    | inr past ↦ All-find P test xs x h.1 (ground arith)
  ]

  pub All-change_first {κ} :
      (P : A → Type κ) (test : A → Bool) (f : A → A) (xs : List A)
      → ((x : A) → P x → P (f x))
      → All P xs
      → All P (change_first test f xs)
  All-change_first P test f [] keeps h = tt
  All-change_first P test f (x ∷ xs) keeps h = elim (Bool-cases (test x)) [
    | inl here ↦ rw here (keeps x h.0, h.1)
    | inr past ↦ rw past (h.0, All-change_first P test f xs keeps h.1)
  ]

  pub All-remove_first {κ} :
      (P : A → Type κ) (test : A → Bool) (xs : List A) → All P xs → All P (remove_first test xs)
  All-remove_first P test [] h = tt
  All-remove_first P test (x ∷ xs) h = elim (Bool-cases (test x)) [
    | inl here ↦ rw here h.1
    | inr past ↦ rw past (h.0, All-remove_first P test xs h.1)
  ]
