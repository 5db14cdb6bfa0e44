-- ===== src/Workflows/Expr/Functions.antt =====
-- The built-in functions of workflows/expr/funcs.go on arrays, objects and texts, as functions of their
-- arguments: `none` is an error, as that of requireArgs where the number of arguments is another one.
pub mod Merge
pub mod FindAll
use sakumock.Workflows.Expr.Syntax
use sakumock.Workflows.Expr.Syntax.{
  Float, Value, Values, Entries, null, no_values, value, no_entries, entry,
}
use sakumock.Workflows.Expr.Value.{Floats, to_number, to_string, count_values, find}
use sakumock.Workflows.Expr.Eval.{Func, set_entry}
use sakumock.Prelude.{
  ℕ, zero, suc, ◌+◌, String, List, [], ◌∷◌, Bool, true, false, not, ◌&&◌, Option, none, some, ltb,
  ◌==◌, str_eq, length, drop, ℤ, pos, negsuc, codes, utf8_bytes, if◌then◌else◌,
}

-- result[i] = v, for every i
fill : Values → Value → Values
fill no_values v = no_values
fill (value w vs) v = value v (fill vs v)

-- append(vs, v)
push : Values → Value → Values
push no_values v = value v no_values
push (value w vs) v = value w (push vs v)

-- vs[i] = v
set_element : Values → ℕ → Value → Values
set_element no_values i v = no_values
set_element (value w vs) zero v = value v vs
set_element (value w vs) (suc i) v = value w (set_element vs i v)

set_at : Values → ℤ → Value → Option Value
unfolding set_element
set_at vs (pos i) v =
    if ltb i (count_values vs) then some (Value.array (set_element vs i v)) else none
set_at vs (negsuc i) v = none

-- delete(m, key), of a copy
without : Entries → String → Entries
without no_entries key = no_entries
without (entry k v es) key =
    let rest = without es key in if str_eq k key then rest else entry k v rest

-- maps.Copy(m, es)
unfoldable pub copy : Entries → Entries → Entries
copy m no_entries = m
copy m (entry k v es) = copy (set_entry m k v) es

or_null : Option Value → Option Value
or_null none = some null
or_null (some v) = some v

unfoldable mutual
  -- The loop of mergeDeep, over the overriding object
  pub merge_deep : Entries → Entries → Entries
  merge_deep result no_entries = result
  merge_deep result (entry k v es) = merge_deep (set_entry result k (merged v (find result k))) es

  -- The value of a key: both values are objects, or the overriding one
  pub merged : Value → Option Value → Value
  merged (Value.object override) (some (Value.object existing)) =
      Value.object (merge_deep existing override)
  merged v existing = v

-- arrayFill
unfoldable pub array_fill : Values → Option Value
unfolding fill
array_fill (value (Value.array vs) (value v no_values)) = some (Value.array (fill vs v))
array_fill args = none

-- arrayPush, and listConcat
unfoldable pub array_push : Values → Option Value
unfolding push
array_push (value (Value.array vs) (value v no_values)) = some (Value.array (push vs v))
array_push args = none

-- listPrepend
unfoldable pub list_prepend : Values → Option Value
list_prepend (value (Value.array vs) (value v no_values)) = some (Value.array (value v vs))
list_prepend args = none

-- mapMerge
unfoldable pub map_merge : Values → Option Value
map_merge (value (Value.object es) (value (Value.object fs) no_values)) =
    some (Value.object (copy (copy no_entries es) fs))
map_merge args = none

-- mapMergeNested
unfoldable pub map_merge_nested : Values → Option Value
unfolding merge_deep
map_merge_nested (value (Value.object es) (value (Value.object fs) no_values)) =
    some (Value.object (merge_deep (copy no_entries es) fs))
map_merge_nested args = none

-- testCount and testResetCount, with env.testCounter
unfoldable pub test_count : Floats → Func
test_count F counter no_values =
    (counter + 1, some (some (Value.number (F.of_length (counter + 1)))))
test_count F counter args = (counter, some none)

unfoldable pub test_reset_count : Floats → Func
test_reset_count F counter no_values = (0, some (some (Value.number F.zero)))
test_reset_count F counter args = (counter, some none)

-- uuidNil
unfoldable pub uuid_nil : Values → Option Value
uuid_nil no_values = some (Value.string "00000000-0000-0000-0000-000000000000")
uuid_nil args = none

-- s starts with sub.
unfoldable pub starts_with : List ℕ → List ℕ → Bool
starts_with [] s = true
starts_with (b ∷ sub) [] = false
starts_with (b ∷ sub) (c ∷ s) = b == c && starts_with sub s

-- strings.Index(s, sub), of the bytes
unfoldable pub index_of : List ℕ → List ℕ → Option ℕ
unfolding starts_with
index_of sub [] = if starts_with sub [] then some 0 else none
index_of sub (c ∷ s) =
    let rest = index_of sub s in
    if starts_with sub (c ∷ s) then some 0 else elim rest [ none ↦ none | some i ↦ some (suc i) ]

-- The loop of textFindAll, from `start` on: `none` where the fuel has run out
unfoldable pub find_all : ℕ → List ℕ → List ℕ → ℕ → Option (List ℕ)
find_all zero source sub start = none
find_all (suc fuel) source sub start = elim (index_of sub (drop start source)) [
  | none ↦ some []
  | some i ↦ elim (find_all fuel source sub (start + i + length sub)) [
    | none ↦ none
    | some positions ↦ some ((start + i) ∷ positions)
  ]
]

module _ (F : Floats) (to_json : Value → String) where
  -- arraySet
  unfoldable pub array_set : Values → Option Value
  unfolding set_at
  array_set (value (Value.array vs) (value i (value v no_values))) =
      set_at vs (F.to_int64 (to_number F i)) v
  array_set args = none

  -- arrayLength
  unfoldable pub array_length : Values → Option Value
  array_length (value (Value.array vs) no_values) =
      some (Value.number (F.of_length (count_values vs)))
  array_length args = none

  -- mapDelete
  unfoldable pub map_delete : Values → Option Value
  unfolding without
  map_delete (value (Value.object es) (value key no_values)) =
      some (Value.object (without es (to_string F to_json key)))
  map_delete args = none

  -- mapGet
  unfoldable pub map_get : Values → Option Value
  unfolding or_null
  map_get (value (Value.object es) (value key no_values)) =
      or_null (find es (to_string F to_json key))
  map_get args = none

  -- mapPut
  unfoldable pub map_put : Values → Option Value
  map_put (value (Value.object es) (value key (value v no_values))) =
      some (Value.object (set_entry (copy no_entries es) (to_string F to_json key) v))
  map_put args = none

  pub positions_of : List ℕ → Values
  positions_of [] = no_values
  positions_of (i ∷ positions) = value (Value.number (F.of_length i)) (positions_of positions)

  -- textFindAll, with the fuel that is enough for a text that is not empty
  unfoldable pub text_find_all : Values → Option Value
  unfolding positions_of
  text_find_all (value source (value sub no_values)) =
      let bytes = utf8_bytes (codes (to_string F to_json source)) in
      elim (find_all (suc (length bytes)) bytes (utf8_bytes (codes (to_string F to_json sub))) 0) [
        | none ↦ none
        | some positions ↦ some (Value.array (positions_of positions))
      ]
  text_find_all args = none
