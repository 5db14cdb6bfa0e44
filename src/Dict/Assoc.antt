-- ===== src/Dict/Assoc.antt =====
-- Association lists, the representation of `Dict`.
use mathlib.Core.Option
use sakumock.Prelude.{◌≡◌, refl, Option, none, some, List, [], ◌∷◌, arith, Eq, if◌then◌else◌}

abbrev pub Assoc {ℓ κ} : Type ℓ → Type κ → Type (ℓ ⊔ κ)
Assoc K V = List (K × V)

module _ {ℓ κ} {K : Type ℓ} {V : Type κ} where
  unfoldable pub map_assoc : (V → V) → Assoc K V → Assoc K V
  map_assoc f [] = []
  map_assoc f ((k, v) ∷ l) = (k, f v) ∷ map_assoc f l

module _ {ℓ κ} {K : Type ℓ} {V : Type κ} ⦃e : Eq K⦄ where
  unfoldable pub lookup : K → Assoc K V → Option V
  lookup k [] = none
  lookup k ((own, value) ∷ more) = if e.beq own k then some value else lookup k more

  pub without : K → Assoc K V → Assoc K V
  without k [] = []
  without k ((own, value) ∷ more) =
      let others = without k more in if e.beq own k then others else (own, value) ∷ others

  pub lookup-without :
      (k j : K) (l : Assoc K V) → lookup j (without k l) ≡ (if e.beq k j then none else lookup j l)
  unfolding lookup without
  lookup-without k j [] = ground arith
  lookup-without k j ((i, v) ∷ l) =
      ground (arith, lookup-without k j l, e.beq_iff i k, e.beq_iff i j, e.beq_iff k j)

  pub lookup-map_assoc :
      (f : V → V) (k : K) (l : Assoc K V) → lookup k (map_assoc f l) ≡ Option.map f (lookup k l)
  unfolding lookup map_assoc
  lookup-map_assoc f k [] = refl
  lookup-map_assoc f k ((i, v) ∷ l) = ground (arith, lookup-map_assoc f k l)
