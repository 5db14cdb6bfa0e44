-- ===== src/Workflows/FunctionTests.antt =====
-- The theorems on the built-in functions of workflows/expr/funcs.go at concrete inputs.
use sakumock.Workflows.EvalTests.{floats}
use sakumock.Workflows.Expr.Syntax.{
  Value, Entries, Values, null, no_values, value, no_entries, entry, boolean, object, array, string,
}
use sakumock.Workflows.Expr.Value.{find, to_string}
use sakumock.Workflows.Expr.Eval.{set_entry}
use sakumock.Workflows.Expr.Functions.{
  copy, map_merge, index_of, map_merge_nested, text_find_all, find_all, positions_of,
}
use sakumock.Workflows.Expr.Functions.Merge.{
  DistinctKeys, along, later, member_of, seen, seen_merged, map_merge-members,
}
use sakumock.Workflows.Expr.Functions.FindAll.{
  Occurrences, text_find_all-Occurrences, find_all-endless,
}
use sakumock.Prelude.{
  ℕ, length, ◌≤◌, String, List, [], ◌∷◌, true, none, some, ◌≡◌, refl, codes, utf8_bytes, arith,
}

abbrev one_key : String → Value → Entries
one_key k v = entry k v no_entries

abbrev base : Entries
base = entry "a" (object (one_key "x" null)) (one_key "b" null)

abbrev override : Entries
override = one_key "a" (object (one_key "y" (boolean true)))

abbrev both : Values
both = value (object base) (value (object override) no_values)

nested :
    map_merge_nested both
    ≡ some (
        object
          (entry "a" (object (entry "x" null (one_key "y" (boolean true)))) (one_key "b" null)))
unfolding map_merge_nested find set_entry copy
nested = refl

map_merge-members_example :
    (member_of (map_merge both) "a" ≡ later (find override "a") (find base "a"))
    × (seen (along (map_merge_nested both) ("a" ∷ "x" ∷ []))
        ≡ seen_merged ("a" ∷ "x" ∷ []) (some (object override)) (some (object base)))
unfolding DistinctKeys find
map_merge-members_example =
    map_merge-members base override "a" ("a" ∷ "x" ∷ []) (refl, (refl, tt, tt), (refl, tt, tt))
      (refl, (refl, tt, tt), tt)

abbrev to_json : Value → String
to_json v = "{}"

abbrev abab : Values
abab = value (string "xababa") (value (string "aba") no_values)

overlapping :
    text_find_all floats to_json abab ≡ some (array (positions_of floats to_json (1 ∷ [])))
unfolding text_find_all utf8_bytes find_all index_of to_string
overlapping = refl

a_text : 1 ≤ length (utf8_bytes (codes "aba"))
unfolding utf8_bytes
a_text = omega arith

text_find_all-Occurrences_example :
    (positions : List ℕ) × (text_find_all floats to_json abab
      ≡ some (array (positions_of floats to_json positions)))
    × Occurrences (utf8_bytes (codes "xababa")) (utf8_bytes (codes "aba")) 0 positions
text_find_all-Occurrences_example = text_find_all-Occurrences floats to_json "xababa" "aba" a_text

find_all-endless_example : find_all 9 (97 ∷ 98 ∷ []) [] 0 ≡ none
find_all-endless_example = find_all-endless 9 (97 ∷ 98 ∷ []) 0
