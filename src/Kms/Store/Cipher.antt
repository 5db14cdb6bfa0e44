-- ===== src/Kms/Store/Cipher.antt =====
-- Encrypt, Decrypt and newGCM of kms/store_memory.go.
use sakumock.Dict
use sakumock.Dict.{Dict}
use sakumock.Kms.Crypto.{Bytes, Crypto, put_uint32, uint32}
use sakumock.Kms.Store.{
  MemoryStore, KeyError, key_not_found, key_not_active, key_suspended, cipher_failed, nonce_failed,
  decode_failed, too_short, open_failed, no_version, materials_of, material_at,
}
use sakumock.Prelude.{
  ℕ, String, ◌++◌, Option, none, some, true, false, Result, ok, err, ltb, length, take, drop,
  str_eq, string_eq, nat_eq,
}

-- ciphertextVersionSize
abbrev pub ciphertext_version_size : ℕ
ciphertext_version_size = 4

module _ (c : Crypto) where
  -- The bytes that Encrypt encodes: version || nonce || sealed data
  abbrev pub envelope : Bytes → ℕ → Bytes → Bytes → Bytes
  envelope material version nonce plaintext =
      let prefix = put_uint32 version in prefix ++ nonce ++ c.seal material nonce plaintext prefix

  -- Encrypt, with the nonce that it draws, `none` where crypto/rand fails
  unfoldable pub encrypt : MemoryStore → String → Bytes → Option Bytes → Result KeyError String
  encrypt s id plaintext drawn = elim (Dict.get s.keys id) [
    | none ↦ err key_not_found
    | some k ↦ elim (str_eq k.status "active") [
      | false ↦ err key_not_active
      | true ↦
          let material = material_at (materials_of s id) k.latest_version in
          elim (c.is_key material) [
            | false ↦ err cipher_failed
            | true ↦ elim drawn [
              | none ↦ err nonce_failed
              | some nonce ↦ ok (c.encode (envelope material k.latest_version nonce plaintext))
            ]
          ]
    ]
  ]

  -- The end of Decrypt, with the material of the version in the prefix
  unfoldable pub open_with : Bytes → Bytes → Result KeyError Bytes
  open_with material ciphertext = elim (c.is_key material) [
    | false ↦ err cipher_failed
    | true ↦
        let rest = drop ciphertext_version_size ciphertext in
        elim (ltb (length rest) c.nonce_size) [
          | true ↦ err too_short
          | false ↦
              elim (c.open_sealed material (take c.nonce_size rest) (drop c.nonce_size rest)
                (take ciphertext_version_size ciphertext)) [
                  | none ↦ err open_failed
                  | some plaintext ↦ ok plaintext
                ]
        ]
  ]

  -- Decrypt
  unfoldable pub decrypt : MemoryStore → String → String → Result KeyError Bytes
  decrypt s id ciphertext_b64 = elim (Dict.get s.keys id) [
    | none ↦ err key_not_found
    | some k ↦ elim (str_eq k.status "suspended") [
      | true ↦ err key_suspended
      | false ↦ elim (c.decode ciphertext_b64) [
        | none ↦ err decode_failed
        | some ciphertext ↦ elim (ltb (length ciphertext) ciphertext_version_size) [
          | true ↦ err too_short
          | false ↦ elim (Dict.get (materials_of s id) (uint32 ciphertext)) [
            | none ↦ err (no_version (uint32 ciphertext))
            | some material ↦ open_with material ciphertext
          ]
        ]
      ]
    ]
  ]
