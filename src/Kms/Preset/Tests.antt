-- ===== src/Kms/Preset/Tests.antt =====
-- The theorem on kms/preset.go at a concrete input, with a toy in place of the cryptography.
use sakumock.Core.Decimal.{parse_int}
use sakumock.Kms.Crypto.{Bytes, Crypto, KeyLaws}
use sakumock.Kms.Preset.{
  PresetKey, parse_preset_keys, parse_specs, parse_preset_key, preset_material, cut_at_sign,
  all_digits, parse_version, version_in_bounds, hex_decode,
}
use sakumock.Kms.Preset.Valid.{IsValid, parse_preset_keys-IsValid}
use sakumock.Prelude.{
  utf8_bytes, sort_by, ◌≡◌, refl, String, List, [], ◌∷◌, none, ok, length, ◌==◌, All, IsSorted,
  arith,
}

abbrev digest : Bytes
digest =
    7 ∷ 7 ∷ 7 ∷ 7 ∷ 7 ∷ 7 ∷ 7 ∷ 7 ∷ 7 ∷ 7 ∷ 7 ∷ 7 ∷ 7 ∷ 7 ∷ 7 ∷ 7 ∷ 7 ∷ 7 ∷ 7 ∷ 7 ∷ 7 ∷ 7 ∷ 7 ∷ 7
    ∷ 7 ∷ 7 ∷ 7 ∷ 7 ∷ 7 ∷ 7 ∷ 7 ∷ 7 ∷ []

abbrev toy : Crypto
toy = record {
  sha256 = λ _. digest;
  is_key = λ key. length key == 32;
  nonce_size = 12;
  seal = λ key nonce plain extra. plain;
  open_sealed = λ key nonce sealed extra. none;
  encode = λ _. "";
  decode = λ _. none;
}

toy-KeyLaws : KeyLaws toy
toy-KeyLaws = record { is_key-32 = λ key size. ground (arith, size); length-sha256 = λ _. refl }

abbrev specs : List (String × String)
specs = ("7", "hello@3") ∷ ("42", "secret") ∷ []

abbrev keys : List PresetKey
keys =
    record { id = "42"; material = digest; version = 1 }
    ∷ record { id = "7"; material = digest; version = 3 }
    ∷ []

parsed : parse_preset_keys toy specs ≡ ok keys
unfolding parse_preset_keys parse_specs parse_preset_key preset_material cut_at_sign all_digits
    parse_version version_in_bounds utf8_bytes hex_decode parse_int sort_by
parsed = refl

parse_preset_keys-IsValid_example : IsSorted (λ k. k.id) keys × All IsValid keys
parse_preset_keys-IsValid_example = parse_preset_keys-IsValid toy toy-KeyLaws specs keys parsed
