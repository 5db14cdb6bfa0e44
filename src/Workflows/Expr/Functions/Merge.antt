-- ===== src/Workflows/Expr/Functions/Merge.antt =====
-- map.merge and map.mergeNested of workflows/expr/funcs.go, member by member.
use sakumock.Workflows.Expr.Syntax.{Value, Entries, no_values, value, no_entries, entry}
use sakumock.Workflows.Expr.Value.{find}
use sakumock.Workflows.Expr.Eval.{set_entry}
use sakumock.Workflows.Expr.Functions.{copy, merge_deep, merged, map_merge, map_merge_nested}
use mathlib.Core.Option.{some-injective}
use mathlib.Core.Path.{subst}
use sakumock.Prelude.{
  List, [], ◌∷◌, String, false, Option, none, some, str_eq, ◌≡◌, refl, arith, eq_iff, Option-cases,
  inl, inr, Bool-cases,
}

-- The keys of a map of Go are distinct, and so are those of the maps that are its members.
unfoldable mutual
  pub DistinctKeys : Entries → Type 0
  DistinctKeys no_entries = Unit
  DistinctKeys (entry k v es) = (find es k ≡ none) × DistinctValue v × DistinctKeys es

  pub DistinctValue : Value → Type 0
  DistinctValue (Value.object es) = DistinctKeys es
  DistinctValue v = Unit

-- What the merged map has at a key, from what the two maps have there
unfoldable pub later : Option Value → Option Value → Option Value
later none old = old
later (some v) old = some v

later_merged : Option Value → Option Value → Option Value
later_merged none old = old
later_merged (some v) old = some (merged v old)

-- The member of an object, where there is one, and the one along a path of keys
unfoldable pub member_of : Option Value → String → Option Value
member_of (some (Value.object es)) key = find es key
member_of v key = none

unfoldable pub along : Option Value → List String → Option Value
along v [] = v
along v (key ∷ path) = along (member_of v key) path

-- A value, of an object only that it is one. Seen along every path, an object is known but for the
-- order of its members.
unfoldable pub seen : Option Value → Option Value
seen (some (Value.object es)) = some (Value.object no_entries)
seen v = v

-- What is seen along a path of two values that are merged, the overriding one first: the path goes
-- down in both as long as both are objects, and then in the overriding one, where there is one.
unfoldable pub seen_merged : List String → Option Value → Option Value → Option Value
seen_merged path none old = seen (along old path)
seen_merged (key ∷ path) (some (Value.object fs)) (some (Value.object es)) =
    seen_merged path (find fs key) (find es key)
seen_merged path (some v) old = seen (along (some v) path)

find-set_entry : (m : Entries) (k : String) (v : Value) → find (set_entry m k v) k ≡ some v
unfolding find set_entry
find-set_entry no_entries k v = ground (arith, eq_iff k k)
find-set_entry (entry j w es) k v = ground (arith, eq_iff j k, eq_iff k k, find-set_entry es k v)

find-set_entry_other :
    (m : Entries) (k j : String) (v : Value)
    → str_eq k j ≡ false
    → find (set_entry m k v) j ≡ find m j
unfolding find set_entry
find-set_entry_other no_entries k j v apart = ground arith
find-set_entry_other (entry i w es) k j v apart =
    ground (arith, eq_iff i k, eq_iff i j, eq_iff k j, find-set_entry_other es k j v apart)

find-merge_deep :
    (m es : Entries) (key : String)
    → DistinctKeys es
    → find (merge_deep m es) key ≡ later_merged (find es key) (find m key)
unfolding find merge_deep later_merged DistinctKeys
find-merge_deep m no_entries key distinct = refl
find-merge_deep m (entry k v es) key distinct =
    let m' = set_entry m k (merged v (find m k)) in
    ground (
      arith,
      find-merge_deep m' es key distinct.2,
      eq_iff k key,
      distinct.0,
      find-set_entry m k (merged v (find m k)),
      find-set_entry_other m k key (merged v (find m k)),
    )

find-copy :
    (m es : Entries) (key : String)
    → DistinctKeys es
    → find (copy m es) key ≡ later (find es key) (find m key)
unfolding find copy later DistinctKeys
find-copy m no_entries key distinct = refl
find-copy m (entry k v es) key distinct = ground (
  arith,
  find-copy (set_entry m k v) es key distinct.2,
  eq_iff k key,
  distinct.0,
  find-set_entry m k v,
  find-set_entry_other m k key v,
)

copied_members :
    (es : Entries) (key : String) → DistinctKeys es → find (copy no_entries es) key ≡ find es key
unfolding find later
copied_members es key h = elim (Option-cases (find es key)) [
  | inl missing ↦ grind (arith, rw missing at (find-copy no_entries es key h))
  | inr (v, there) ↦ grind (arith, rw there at (find-copy no_entries es key h))
]

DistinctValue-find :
    (es : Entries) (key : String) (v : Value)
    → DistinctKeys es
    → find es key ≡ some v
    → DistinctValue v
unfolding find DistinctKeys
DistinctValue-find no_entries key v h e = absurd (cc e)
DistinctValue-find (entry k w es) key v h e = elim (Bool-cases (str_eq k key)) [
  | inl here ↦ subst DistinctValue (some-injective w v (rw here at e)) h.1
  | inr past ↦ DistinctValue-find es key v h.2 (rw past at e)
]

later_merged-seen :
    (path : List String) (new old : Option Value)
    → ((v : Value)
        → new ≡ some v
        → seen (along (some (merged v old)) path) ≡ seen_merged path (some v) old)
    → seen (along (later_merged new old) path) ≡ seen_merged path new old
unfolding later_merged seen_merged
later_merged-seen path none old h = refl
later_merged-seen path (some v) old h = h v refl

merged-seen :
    (path : List String) (v : Value) (old : Option Value)
    → DistinctValue v
    → seen (along (some (merged v old)) path) ≡ seen_merged path (some v) old
unfolding merge_deep later_merged seen_merged along seen member_of DistinctKeys
merged-seen [] (Value.object fs) (some (Value.object es)) h = refl
merged-seen (key ∷ path) (Value.object fs) (some (Value.object es)) h =
    rw (find-merge_deep es fs key h) (
      later_merged-seen path (find fs key) (find es key)
        λ v e. merged-seen path v (find es key) (DistinctValue-find fs key v h e))
merged-seen [] v old h = refl
merged-seen (key ∷ path) v old h = refl

nested-seen :
    (es fs : Entries) (path : List String)
    → DistinctKeys es
    → DistinctKeys fs
    → seen (along (some (Value.object (merge_deep (copy no_entries es) fs))) path)
      ≡ seen_merged path (some (Value.object fs)) (some (Value.object es))
unfolding along seen seen_merged member_of
nested-seen es fs [] h k = refl
nested-seen es fs (key ∷ path) h k =
    rw (find-merge_deep (copy no_entries es) fs key k, copied_members es key h)
      (later_merged-seen path (find fs key) (find es key)
        λ v e. merged-seen path v (find es key) (DistinctValue-find fs key v k e))

-- map.merge and map.mergeNested of two objects. The member of the first at a key is the one of the
-- second object, or where it has none, the one of the first object, if any. What is seen of the second
-- along a path of keys is what is seen in the second object, or in the first one where the second has
-- no more of the path while both are objects up to there: nested objects are merged, at every depth,
-- and lose none of their members.
pub map_merge-members :
    (es fs : Entries) (key : String) (path : List String)
    → DistinctKeys es
    → DistinctKeys fs
    → let args = value (Value.object es) (value (Value.object fs) no_values) in
      (member_of (map_merge args) key ≡ later (find fs key) (find es key))
      × (seen (along (map_merge_nested args) path)
          ≡ seen_merged path (some (Value.object fs)) (some (Value.object es)))
unfolding map_merge map_merge_nested member_of
map_merge-members es fs key path h k = (
  rw (copied_members es key h) at (find-copy (copy no_entries es) fs key k),
  nested-seen es fs path h k,
)
