-- ===== src/Kms/Crypto.antt =====
-- What kms/store_memory.go and kms/preset.go call of crypto/sha256, crypto/aes, crypto/cipher and
-- encoding/base64 is a parameter; encoding/binary's big-endian uint32 is written out.
mod Prefix
unfoldable pub use Prefix.*
use sakumock.Prelude.{
  ℕ, suc, ◌+◌, ◌*◌, ◌/◌, ◌%◌, ◌^◌, ◌≤◌, ◌≡◌, String, List, Bool, true, Option, some, length,
}

abbrev pub Bytes : Type 0
Bytes = List ℕ

pub record Crypto : Type 0 where
  -- sha256.Sum256
  pub sha256 : Bytes → Bytes
  -- aes.NewCipher and cipher.NewGCM return no error at this key.
  pub is_key : Bytes → Bool
  -- NonceSize of the AEAD
  pub nonce_size : ℕ
  -- Seal and Open of the AEAD: key, nonce, text, additional data
  pub seal : Bytes → Bytes → Bytes → Bytes → Bytes
  pub open_sealed : Bytes → Bytes → Bytes → Bytes → Option Bytes
  -- base64.StdEncoding
  pub encode : Bytes → String
  pub decode : String → Option Bytes

-- The documented behaviour that the properties use: Open undoes Seal under the same key, nonce and
-- additional data, and DecodeString undoes EncodeToString.
pub record CryptoLaws (c : Crypto) : Type 0 where
  pub open_sealed-seal :
      (key nonce plain extra : Bytes)
      → c.is_key key ≡ true
      → length nonce ≡ c.nonce_size
      → c.open_sealed key nonce (c.seal key nonce plain extra) extra ≡ some plain
  pub decode-encode : (bytes : Bytes) → c.decode (c.encode bytes) ≡ some bytes

-- AES-256 takes every key of 32 bytes, and SHA-256 makes 32 bytes.
pub record KeyLaws (c : Crypto) : Type 0 where
  pub is_key-32 : (key : Bytes) → length key ≡ 32 → c.is_key key ≡ true
  pub length-sha256 : (bytes : Bytes) → length (c.sha256 bytes) ≡ 32
