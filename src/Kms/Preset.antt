-- ===== src/Kms/Preset.antt =====
-- parsePresetKeys and presetMaterial of kms/preset.go: the specs of --key.
pub mod Valid
pub mod Tests
use Prim.Native.Char.{Char, code}
use sakumock.Core.Decimal.{parse_int}
use sakumock.Kms.Crypto.{Bytes, Crypto}
use sakumock.Prelude.{
  utf8_bytes, ℕ, zero, suc, ◌+◌, ◌-◌, ◌*◌, ◌/◌, ◌%◌, String, List, [], ◌∷◌, ◌++◌, map, Bool, true,
  false, Option, none, some, Result, ok, err, ltb, leb, ◌==◌, ◌&&◌, ◌||◌, not, codes, byte_length,
  length, ℤ, pos, negsuc, str_eq, sort_by, if◌then◌else◌,
}

-- maxPresetVersion
abbrev pub max_preset_version : ℕ
max_preset_version = 1000

pub record PresetKey : Type 0 where
  pub id : String
  pub material : Bytes
  pub version : ℕ

pub data PresetError : Type 0 where
  not_id_and_secret id_too_long id_not_numeric invalid_version : PresetError

-- strings.Cut(s, "@"): what is before the first "@", and what is after it where there is one
pub cut_at_sign : String → String × Option String
cut_at_sign String.[] = (String.[], none)
cut_at_sign (String.◌∷◌ c s) =
    let (before, after) = cut_at_sign s in
    if code c == 64 then (String.[], some s) else (String.◌∷◌ c before, after)

abbrev pub is_digit : ℕ → Bool
is_digit c = leb 48 c && leb c 57

pub all_digits : List ℕ → Bool
all_digits [] = true
all_digits (c ∷ s) = let rest = all_digits s in is_digit c && rest

-- The value of a hexadecimal digit
abbrev pub hex_value : ℕ → Option ℕ
hex_value c =
    if leb 48 c && leb c 57
    then some (c - 48)
    else if leb 97 c && leb c 102
    then some (c - 87)
    else if leb 65 c && leb c 70
    then some (c - 55)
    else none

-- A byte of two digits in front of the bytes that follow
abbrev pub hex_byte : Option ℕ → Option ℕ → Option Bytes → Option Bytes
hex_byte (some high) (some low) (some rest) = some ((high * 16 + low) ∷ rest)
hex_byte _ _ _ = none

-- hex.DecodeString
unfoldable pub hex_decode : List ℕ → Option Bytes
hex_decode [] = some []
hex_decode (a ∷ []) = none
hex_decode (a ∷ b ∷ s) = let rest = hex_decode s in hex_byte (hex_value a) (hex_value b) rest

-- n, err := strconv.Atoi(versionStr), and the test on them
pub version_in_bounds : Option ℤ → Result PresetError ℕ
version_in_bounds none = err invalid_version
version_in_bounds (some (negsuc _)) = err invalid_version
version_in_bounds (some (pos n)) =
    if ltb n 1 || ltb max_preset_version n then err invalid_version else ok n

-- The version of a spec: 1 where there is no "@"
pub parse_version : Option String → Result PresetError ℕ
unfolding version_in_bounds
parse_version none = ok 1
parse_version (some text) = version_in_bounds (parse_int text)

module _ (c : Crypto) where
  -- presetMaterial
  unfoldable pub preset_material : String → Bytes
  unfolding utf8_bytes
  preset_material secret =
      let digest = c.sha256 (utf8_bytes (codes secret)) in
      elim (byte_length (codes secret) == 64) [
        | false ↦ digest
        | true ↦ elim (hex_decode (codes secret)) [ none ↦ digest | some b ↦ b ]
      ]

  -- One turn of the loop of parsePresetKeys
  unfoldable pub parse_preset_key : String → String → Result PresetError PresetKey
  unfolding cut_at_sign all_digits parse_version
  parse_preset_key id spec =
      let (secret, version) = cut_at_sign spec in
      if str_eq id "" || str_eq secret ""
      then err not_id_and_secret
      else if ltb 12 (byte_length (codes id))
      then err id_too_long
      else if not (all_digits (codes id))
      then err id_not_numeric
      else elim (parse_version version) [
        | err e ↦ err e
        | ok n ↦ ok (record { id = id; material = preset_material secret; version = n })
      ]

  -- The loop, over the entries of the map in the order of its iteration
  unfoldable pub parse_specs : List (String × String) → Result PresetError (List PresetKey)
  parse_specs [] = ok []
  parse_specs ((id, spec) ∷ specs) =
      let rest = parse_specs specs in
      elim (parse_preset_key id spec) [
        | err e ↦ err e
        | ok key ↦ elim rest [ err e ↦ err e | ok keys ↦ ok (key ∷ keys) ]
      ]

  -- parsePresetKeys
  unfoldable pub parse_preset_keys : List (String × String) → Result PresetError (List PresetKey)
  parse_preset_keys specs = elim (parse_specs specs) [
    | err e ↦ err e
    | ok keys ↦ ok (sort_by (λ k. k.id) keys)
  ]
