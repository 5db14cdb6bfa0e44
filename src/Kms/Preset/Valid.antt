-- ===== src/Kms/Preset/Valid.antt =====
-- What parsePresetKeys of kms/preset.go returns.
use mathlib.Core.Path.{subst}
use sakumock.Kms.Crypto.{Bytes, Crypto, KeyLaws}
use sakumock.Kms.Preset.{
  PresetKey, all_digits, hex_value, hex_decode, parse_version, version_in_bounds, preset_material,
  parse_preset_key, parse_specs, parse_preset_keys, max_preset_version, cut_at_sign,
}
use sakumock.Core.Decimal.{parse_int}
use sakumock.Prelude.{
  utf8_bytes, ℕ, ◌+◌, ◌*◌, ◌≤◌, ◌≡◌, ◌≢◌, refl, ap, String, List, [], ◌∷◌, true, Option, none, some,
  Result-cases, ok, ltb, ◌==◌, ◌||◌, codes, byte_length, utf8_size, length, sym, arith, ℤ, pos,
  negsuc, str_eq, sort_by, IsSorted, sort_by-IsSorted, sort_by-All, All, Bool-cases, Option-cases,
  inl, inr, string_eq,
}

hex_value-small : (a v : ℕ) → hex_value a ≡ some v → utf8_size a ≡ 1
hex_value-small a v h = ground (arith, h)

-- Decoded bytes are half as many as the digits, which are of ASCII.
hex_decode-length : (s : List ℕ) (b : Bytes) → hex_decode s ≡ some b → length b * 2 ≡ byte_length s
unfolding hex_decode
hex_decode-length [] b h = let nothing : [] ≡ b = cc h in rw (sym nothing) refl
hex_decode-length (a ∷ []) b h = absurd (cc h)
hex_decode-length (a ∷ d ∷ s) b h = elim (Option-cases (hex_value a)) [
  | inl bad ↦ absurd (cc (rw (hex_decode, bad) at h))
  | inr (high, first) ↦ elim (Option-cases (hex_value d)) [
    | inl bad ↦ absurd (cc (rw (hex_decode, first, bad) at h))
    | inr (low, second) ↦ elim (Option-cases (hex_decode s)) [
      | inl bad ↦ absurd (cc (rw (hex_decode, first, second, bad) at h))
      | inr (rest, decoded) ↦
          let whole : (high * 16 + low) ∷ rest ≡ b =
            cc (rw (hex_decode, first, second, decoded) at h) in
          let count = ap length whole in
          omega (
            arith,
            count,
            hex_value-small a high first,
            hex_value-small d low second,
            hex_decode-length s rest decoded,
          )
    ]
  ]
]

-- Every material is a key of AES-256.
preset_material-length :
    (c : Crypto) → KeyLaws c → (secret : String) → length (preset_material c secret) ≡ 32
unfolding preset_material
preset_material-length c laws secret =
    let digest = laws.length-sha256 (utf8_bytes (codes secret)) in
    elim (Bool-cases (byte_length (codes secret) == 64)) [
      | inr other ↦ rw (preset_material, other) digest
      | inl size ↦ elim (Option-cases (hex_decode (codes secret))) [
        | inl no_hex ↦ rw (preset_material, size, no_hex) digest
        | inr (b, decoded) ↦
            rw (preset_material, size, decoded)
              (ground (arith, size, hex_decode-length (codes secret) b decoded))
      ]
    ]

-- A key as it may be preset
abbrev pub IsValid : PresetKey → Type 0
IsValid k =
    (k.id ≢ "")
    × (length (codes k.id) ≤ 12)
    × (all_digits (codes k.id) ≡ true)
    × (1 ≤ k.version)
    × (k.version ≤ max_preset_version)
    × (length k.material ≡ 32)

version_in_bounds-ok :
    (z : Option ℤ) (n : ℕ) → version_in_bounds z ≡ ok n → (1 ≤ n) × (n ≤ max_preset_version)
unfolding version_in_bounds
version_in_bounds-ok none n h = absurd (cc h)
version_in_bounds-ok (some (negsuc k)) n h = absurd (cc h)
version_in_bounds-ok (some (pos k)) n h = elim (Bool-cases (ltb k 1 || ltb max_preset_version k)) [
  | inl out ↦ absurd (cc (rw out at h))
  | inr inside ↦
      let same : k ≡ n = cc (rw inside at h) in
      (ground (arith, inside, same), ground (arith, inside, same))
]

parse_version-ok :
    (text : Option String) (n : ℕ) → parse_version text ≡ ok n → (1 ≤ n) × (n ≤ max_preset_version)
unfolding parse_version
parse_version-ok none n h = let one : 1 ≡ n = cc h in (omega (arith, one), omega (arith, one))
parse_version-ok (some text) n h = version_in_bounds-ok (parse_int text) n h

length-byte_length : (s : List ℕ) → length s ≤ byte_length s
length-byte_length [] = omega arith
length-byte_length (c ∷ s) = ground (arith, length-byte_length s)

-- A spec that is accepted makes a valid key.
parse_preset_key-IsValid :
    (c : Crypto)
    → KeyLaws c
    → (id spec : String) (k : PresetKey) → parse_preset_key c id spec ≡ ok k
    → IsValid k
unfolding parse_preset_key
parse_preset_key-IsValid c laws id spec k h =
    let (secret, version) = cut_at_sign spec in
    elim (Bool-cases (str_eq id "" || str_eq secret "")) [
      | inl bad ↦ absurd (cc (rw (parse_preset_key, bad) at h))
      | inr named ↦ elim (Bool-cases (ltb 12 (byte_length (codes id)))) [
        | inl long ↦ absurd (cc (rw (parse_preset_key, named, long) at h))
        | inr short ↦ elim (Bool-cases (all_digits (codes id))) [
          | inr bad ↦ absurd (cc (rw (parse_preset_key, named, short, bad) at h))
          | inl digits ↦ elim (Result-cases (parse_version version)) [
            | inl (e, bad) ↦ absurd (cc (rw (parse_preset_key, named, short, digits, bad) at h))
            | inr (n, good) ↦
                let made : PresetKey = record {
                  id = id;
                  material = preset_material c secret;
                  version = n;
                } in
                let same : made ≡ k = cc (rw (parse_preset_key, named, short, digits, good) at h) in
                let (low, high) = parse_version-ok version n good in
                let size = length-byte_length (codes id) in
                let some_id : id ≢ "" =
                  λ e. absurd (ground (arith, named, (string_eq.beq_iff id "").1 e)) in
                subst IsValid same (
                  some_id,
                  ground (arith, short, size),
                  digits,
                  low,
                  high,
                  preset_material-length c laws secret,
                )
          ]
        ]
      ]
    ]

parse_specs-IsValid :
    (c : Crypto)
    → KeyLaws c
    → (specs : List (String × String)) (keys : List PresetKey) → parse_specs c specs ≡ ok keys
    → All IsValid keys
unfolding parse_specs
parse_specs-IsValid c laws [] keys h = let same : [] ≡ keys = cc h in subst (All IsValid) same tt
parse_specs-IsValid c laws ((id, spec) ∷ specs) keys h =
    elim (Result-cases (parse_preset_key c id spec)) [
      | inl (e, bad) ↦ absurd (cc (rw (parse_specs, bad) at h))
      | inr (k, good) ↦ elim (Result-cases (parse_specs c specs)) [
        | inl (e, bad) ↦ absurd (cc (rw (parse_specs, good, bad) at h))
        | inr (rest, all) ↦
            let same : k ∷ rest ≡ keys = cc (rw (parse_specs, good, all) at h) in
            subst (All IsValid) same (
              parse_preset_key-IsValid c laws id spec k good,
              parse_specs-IsValid c laws specs rest all,
            )
      ]
    ]

-- The keys that parsePresetKeys returns are in the order of their IDs, and each has an ID of 1 to 12
-- digits, a version from 1 to 1000 and a material of 32 bytes, a key of AES-256. SHA-256 makes 32
-- bytes.
pub parse_preset_keys-IsValid :
    (c : Crypto)
    → KeyLaws c
    → (specs : List (String × String)) (keys : List PresetKey) → parse_preset_keys c specs ≡ ok keys
    → IsSorted (λ k. k.id) keys × All IsValid keys
unfolding parse_preset_keys
parse_preset_keys-IsValid c laws specs keys h = elim (Result-cases (parse_specs c specs)) [
  | inl (e, bad) ↦ absurd (cc (rw (parse_preset_keys, bad) at h))
  | inr (found, good) ↦
      let same : sort_by (λ k. k.id) found ≡ keys = cc (rw (parse_preset_keys, good) at h) in
      subst (λ l. IsSorted (λ k. k.id) l × All IsValid l) same
        (
          sort_by-IsSorted (λ k. k.id) found,
          sort_by-All (λ k. k.id) IsValid found (parse_specs-IsValid c laws specs found good),
        )
]
