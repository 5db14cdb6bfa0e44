-- ===== src/Dict.antt =====
-- Go's `map`, with the keys of an interface `Eq`. The representation is private: clients have
-- `dict_laws`. An iteration sees each entry once, in an order that Go does not fix and that the
-- model takes to be that of the entries.
mod Assoc
use Assoc.{Assoc as Entries, lookup, without, lookup-without, map_assoc, lookup-map_assoc}
use sakumock.Prelude.{
  ◌≡◌, refl, Option, none, some, [], ◌∷◌, List, map, arith, Eq, Bool-cases, inl, inr, ◌⊎◌,
  if◌then◌else◌,
}
use mathlib.Core.Option

pub record Dict {ℓ κ} (K : Type ℓ) (V : Type κ) : Type (ℓ ⊔ κ) where
  entries : Entries K V

module _ {ℓ κ} {K : Type ℓ} {V : Type κ} where
  -- make(map[K]V)
  pub empty : Dict K V
  empty = record { entries = [] }

  -- The values, in the order of an iteration: for _, v := range d
  pub values : Dict K V → List V
  values d = map (λ e. e.1) d.entries

  -- A change of every value in place: for _, v := range d { v.change() }
  pub map_values : (V → V) → Dict K V → Dict K V
  map_values f d = record { entries = map_assoc f d.entries }

module _ {ℓ κ} {K : Type ℓ} {V : Type κ} ⦃e : Eq K⦄ where
  -- v, ok := d[k]
  pub get : Dict K V → K → Option V
  get d k = lookup k d.entries

  -- delete(d, k)
  pub remove : Dict K V → K → Dict K V
  remove d k = record { entries = without k d.entries }

  -- d[k] = v
  pub put : Dict K V → K → V → Dict K V
  put d k v = record { entries = (k, v) ∷ without k d.entries }

  pub get-remove :
      (d : Dict K V) (k j : K) → get (remove d k) j ≡ (if e.beq k j then none else get d j)
  unfolding get remove
  get-remove d k j = lookup-without k j d.entries

  pub get-put :
      (d : Dict K V) (k j : K) (v : V) → get (put d k v) j ≡ (if e.beq k j then some v else get d j)
  unfolding get put lookup
  get-put d k j v = ground (arith, lookup-without k j d.entries)

  pub get-map_values :
      (f : V → V) (d : Dict K V) (k : K) → get (map_values f d) k ≡ Option.map f (get d k)
  unfolding get map_values
  get-map_values f d k = lookup-map_assoc f k d.entries

  pub get-empty : (k : K) → get (empty {V = V}) k ≡ none
  unfolding get empty lookup
  get-empty k = refl

module _ {ℓ κ} {K : Type ℓ} {V : Type κ} ⦃e : Eq K⦄ where
  pub get-put_self : (d : Dict K V) (k : K) (v : V) → get (put d k v) k ≡ some v
  get-put_self d k v = rw (get-put d k k v, (e.beq_iff k k).1 refl)

  pub get-put_ne : (d : Dict K V) (k j : K) (v : V) → ¬ (k ≡ j) → get (put d k v) j ≡ get d j
  get-put_ne d k j v ne = elim (Bool-cases (e.beq k j)) [
    | inl same ↦ absurd (ne ((e.beq_iff k j).0 same))
    | inr other ↦ rw (get-put d k j v, other)
  ]

  pub get-remove_self : (d : Dict K V) (k : K) → get (remove d k) k ≡ none
  get-remove_self d k = rw (get-remove d k k, (e.beq_iff k k).1 refl)

  pub get-remove_ne : (d : Dict K V) (k j : K) → ¬ (k ≡ j) → get (remove d k) j ≡ get d j
  get-remove_ne d k j ne = elim (Bool-cases (e.beq k j)) [
    | inl same ↦ absurd (ne ((e.beq_iff k j).0 same))
    | inr other ↦ rw (get-remove d k j, other)
  ]

  -- What is found after a write is what was written, or what was there under another key.
  pub get-put_cases :
      (d : Dict K V) (k j : K) (v x : V)
      → get (put d k v) j ≡ some x
      → ((k ≡ j) × (x ≡ v)) ⊎ (¬ (k ≡ j) × (get d j ≡ some x))
  get-put_cases d k j v x h = elim (Bool-cases (e.beq k j)) [
    | inl same ↦ inl ((e.beq_iff k j).0 same, cc (h, rw same at (get-put d k j v)))
    | inr other ↦
        inr (λ eq. cc ((e.beq_iff k j).1 eq, other), cc (h, rw other at (get-put d k j v)))
  ]

  -- What is found after a removal was there under another key.
  pub get-remove_cases :
      (d : Dict K V) (k j : K) (x : V)
      → get (remove d k) j ≡ some x
      → ¬ (k ≡ j) × (get d j ≡ some x)
  get-remove_cases d k j x h = elim (Bool-cases (e.beq k j)) [
    | inl same ↦ absurd (cc (h, rw same at (get-remove d k j)))
    | inr other ↦ (λ eq. cc ((e.beq_iff k j).1 eq, other), cc (h, rw other at (get-remove d k j)))
  ]

pub ruleset dict_laws = (get-empty, get-remove, get-put, get-map_values)
