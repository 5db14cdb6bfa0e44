-- ===== src/Workflows/Expr/Value.antt =====
-- The operations on values of workflows/expr/value.go. What Go computes of float64 numbers, and
-- json.Marshal, are parameters.
use Prim.Native.Char.{char, IsScalar}
use Prim.Native.Nat.{compare, Ordering}
use sakumock.Core.Decimal.{format_int, parse_int}
use sakumock.Workflows.Expr.Syntax.{
  Float, Value, Values, Entries, null, boolean, no_values, value, no_entries, entry,
}
use sakumock.Prelude.{
  ℕ, zero, suc, ◌≡◌, refl, String, List, [], ◌∷◌, Bool, true, false, not, ◌&&◌, Option, none, some,
  ◌==◌, str_eq, str_leb, concat, codes, utf8_bytes, length, if◌then◌else◌, ℤ, pos, negsuc,
}

-- Go's float64 and strconv, as the values use them
pub record Floats : Type 0 where
  pub zero : Float
  pub one : Float
  pub nan : Float
  pub infinity : Float
  pub neg : Float → Float
  pub add : Float → Float → Float
  pub sub : Float → Float → Float
  pub mul : Float → Float → Float
  pub div : Float → Float → Float
  pub modulo : Float → Float → Float
  pub pow : Float → Float → Float
  pub eq : Float → Float → Bool
  pub lt : Float → Float → Bool
  pub trunc : Float → Float
  pub is_inf : Float → Bool
  pub is_nan : Float → Bool
  pub of_length : ℕ → Float
  pub to_int64 : Float → ℤ
  pub parse_float : String → Option Float
  pub format_float : Float → String

-- v.Type().String()
unfoldable pub type_name : Value → String
type_name null = "null"
type_name (boolean b) = "boolean"
type_name (Value.number n) = "number"
type_name (Value.string s) = "string"
type_name (Value.array vs) = "array"
type_name (Value.object es) = "object"

-- The member of an object
unfoldable pub find : Entries → String → Option Value
find no_entries key = none
find (entry k v es) key = let rest = find es key in if str_eq k key then some v else rest

unfoldable pub element : Values → ℕ → Option Value
element no_values i = none
element (value v vs) zero = some v
element (value v vs) (suc i) = element vs i

abbrev pub count_values : Values → ℕ
count_values no_values = 0
count_values (value v vs) = suc (count_values vs)

abbrev pub count_entries : Entries → ℕ
count_entries no_entries = 0
count_entries (entry k v es) = suc (count_entries es)

pub IsScalar-of_lt : (n : ℕ) → compare n 55296 ≡ Ordering.lt → IsScalar n
IsScalar-of_lt n e = rw e tt

-- string(b) of a byte: the rune with that number
unfoldable pub byte_text : ℕ → String
byte_text n = at (compare n 55296) refl
  where
    at : (o : Ordering) → compare n 55296 ≡ o → String
    at Ordering.lt e = String.◌∷◌ (char n (IsScalar-of_lt n e)) String.[]
    at _ e = String.[]

abbrev pub at_index : Values → ℤ → Option Value
at_index vs (pos i) = element vs i
at_index vs (negsuc i) = none

unfoldable pub parsed_index : Values → Option ℤ → Option Value
parsed_index vs none = none
parsed_index vs (some i) = at_index vs i

unfoldable pub byte_at : List ℕ → ℕ → Option Value
unfolding byte_text
byte_at [] i = none
byte_at (b ∷ bs) zero = some (Value.string (byte_text b))
byte_at (b ∷ bs) (suc i) = byte_at bs i

unfoldable pub byte_index : List ℕ → ℤ → Option Value
unfolding byte_at
byte_index bs (pos i) = byte_at bs i
byte_index bs (negsuc i) = none

unfoldable pub same_type : Value → Value → Bool
same_type null null = true
same_type (boolean a) (boolean b) = true
same_type (Value.number n) (Value.number m) = true
same_type (Value.string s) (Value.string t) = true
same_type (Value.array vs) (Value.array ws) = true
same_type (Value.object es) (Value.object fs) = true
same_type v w = false

unfoldable pub same_bool : Bool → Bool → Bool
same_bool true b = b
same_bool false b = not b

module _ (F : Floats) where
  -- Truthy
  unfoldable pub truthy : Value → Bool
  truthy null = false
  truthy (boolean b) = b
  truthy (Value.number n) = not (F.eq n F.zero) && not (F.is_nan n)
  truthy (Value.string s) = not (str_eq s "")
  truthy (Value.array vs) = true
  truthy (Value.object es) = true

  abbrev pub bool_number : Bool → Float
  bool_number true = F.one
  bool_number false = F.zero

  abbrev or_nan : Option Float → Float
  or_nan none = F.nan
  or_nan (some n) = n

  -- ToNumber
  unfoldable pub to_number : Value → Float
  to_number null = F.zero
  to_number (boolean b) = bool_number b
  to_number (Value.number n) = n
  to_number (Value.string s) = or_nan (F.parse_float s)
  to_number (Value.array vs) = F.nan
  to_number (Value.object es) = F.nan

  abbrev number_text : Float → String
  number_text n =
      if F.eq n (F.trunc n) && not (F.is_inf n) && not (F.is_nan n)
      then format_int (F.to_int64 n)
      else F.format_float n

  -- Number(n).Equal(v)
  unfoldable pub number_equal : Float → Value → Bool
  unfolding to_number
  number_equal n null = false
  number_equal n (boolean b) = F.eq n (bool_number b)
  number_equal n (Value.number m) = F.eq n m
  number_equal n (Value.string s) = F.eq n (to_number (Value.string s))
  number_equal n (Value.array vs) = false
  number_equal n (Value.object es) = false

  -- v.Equal(Number(n)), of a value of another type
  unfoldable pub equal_number : Value → Float → Bool
  unfolding to_number
  equal_number (Value.string s) n = F.eq (to_number (Value.string s)) n
  equal_number (boolean b) n = F.eq (bool_number b) n
  equal_number _ n = false

  -- looseEqual: Equal of values of two types
  unfoldable pub loose_equal : Value → Value → Bool
  unfolding number_equal equal_number
  loose_equal null w = false
  loose_equal (Value.number n) w = number_equal n w
  loose_equal (Value.string s) (Value.number m) = equal_number (Value.string s) m
  loose_equal (boolean a) null = false
  loose_equal (boolean a) w = number_equal (bool_number a) w
  loose_equal v (boolean b) = equal_number v (bool_number b)
  loose_equal v w = false

  -- Equal
  unfoldable mutual
    unfolding loose_equal same_bool find

    pub equal : Value → Value → Bool
    equal null null = true
    equal null w = loose_equal null w
    equal (boolean a) (boolean b) = same_bool a b
    equal (boolean a) w = loose_equal (boolean a) w
    equal (Value.number n) (Value.number m) = F.eq n m
    equal (Value.number n) w = loose_equal (Value.number n) w
    equal (Value.string s) (Value.string t) = str_eq s t
    equal (Value.string s) w = loose_equal (Value.string s) w
    equal (Value.array vs) (Value.array ws) =
        (count_values vs == count_values ws) && equal_values vs ws
    equal (Value.array vs) w = loose_equal (Value.array vs) w
    equal (Value.object es) (Value.object fs) =
        (count_entries es == count_entries fs) && equal_entries es fs
    equal (Value.object es) w = loose_equal (Value.object es) w

    pub equal_values : Values → Values → Bool
    equal_values no_values ws = true
    equal_values (value v vs) no_values = false
    equal_values (value v vs) (value w ws) = equal v w && equal_values vs ws

    pub equal_entries : Entries → Entries → Bool
    equal_entries no_entries fs = true
    equal_entries (entry k v es) fs =
        let rest = equal_entries es fs in
        elim (find fs k) [ none ↦ false | some w ↦ equal v w && rest ]

  -- StrictEqual
  unfoldable pub strict_equal : Value → Value → Bool
  unfolding same_type equal
  strict_equal v w = if same_type v w then equal v w else false

  -- Less
  unfoldable pub less : Value → Value → Bool
  unfolding to_number
  less (Value.string s) (Value.string t) = not (str_leb t s)
  less v w = F.lt (to_number v) (to_number w)

  -- GetMember: `none` is Null and false.
  unfoldable pub get_member : Value → String → Option Value
  unfolding find element parsed_index parse_int utf8_bytes
  get_member (Value.object es) key = find es key
  get_member (Value.array vs) key =
      if str_eq key "length"
      then some (Value.number (F.of_length (count_values vs)))
      else parsed_index vs (parse_int key)
  get_member (Value.string s) key =
      if str_eq key "length"
      then some (Value.number (F.of_length (length (utf8_bytes (codes s)))))
      else none
  get_member v key = none

module _ (F : Floats) (to_json : Value → String) where
  -- ToString: json.Marshal(v.ToInterface()) of an object is `to_json`.
  unfoldable mutual
    unfolding format_int

    pub to_string : Value → String
    to_string null = "null"
    to_string (boolean true) = "true"
    to_string (boolean false) = "false"
    to_string (Value.number n) = number_text F n
    to_string (Value.string s) = s
    to_string (Value.array vs) = join vs
    to_string (Value.object es) = to_json (Value.object es)

    -- strings.Join(parts, ",")
    pub join : Values → String
    join no_values = ""
    join (value v vs) = concat (to_string v) (join_more vs)

    pub join_more : Values → String
    join_more no_values = ""
    join_more (value v vs) = concat "," (concat (to_string v) (join_more vs))

  -- GetIndex
  unfoldable pub get_index : Value → Value → Option Value
  unfolding find element to_string byte_index utf8_bytes
  get_index (Value.array vs) (Value.number n) = at_index vs (F.to_int64 n)
  get_index (Value.object es) i = find es (to_string i)
  get_index (Value.string s) (Value.number n) = byte_index (utf8_bytes (codes s)) (F.to_int64 n)
  get_index v i = none
