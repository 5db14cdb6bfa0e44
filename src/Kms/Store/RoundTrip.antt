-- ===== src/Kms/Store/RoundTrip.antt =====
-- Decrypt of kms/store_memory.go undoes Encrypt: at once, after later requests, and on another store
-- whose key is preset from the same material.
use mathlib.Core.Path.{subst}
use sakumock.Dict
use sakumock.Dict.{Dict}
use sakumock.Kms.Crypto.{Bytes, Crypto, CryptoLaws, put_uint32, uint32, uint32-put_uint32}
use sakumock.Kms.Store.{MemoryStore, KeyRecord, materials_of, material_at}
use sakumock.Kms.Store.Chain.{Chained, derived}
use sakumock.Kms.Store.Cipher.{encrypt, decrypt, open_with, envelope, ciphertext_version_size}
use sakumock.Prelude.{
  ℕ, ◌^◌, ◌<◌, ◌≤◌, ◌≡◌, ◌≢◌, refl, sym, ap, ◌∙◌, String, ◌++◌, some, ok, true, false, arith,
  length, take, drop, take-append, drop-append, length-append, str_eq-false, ltb, string_eq, nat_eq,
  str_eq, Bool-cases, inl, inr,
}

module _ (c : Crypto) where
  -- The materials of a chained key, at a version of it
  material-Chained :
      (s : MemoryStore) (id : String) (first : Bytes) (latest v : ℕ)
      → 1 ≤ v
      → v ≤ latest
      → Chained c s id first latest
      → Dict.get (materials_of s id) v ≡ some (derived c first v)
  material-Chained s id first latest v low high (m, here, chain) =
      rw (materials_of, here) (chain v ∙ ground (arith, low, high))

  -- What Decrypt takes apart is what Encrypt put together.
  prefix_of-envelope :
      (key nonce plain : Bytes) (v : ℕ)
      → take ciphertext_version_size (envelope c key v nonce plain) ≡ put_uint32 v
  unfolding put_uint32
  prefix_of-envelope key nonce plain v = refl

  rest_of-envelope :
      (key nonce plain : Bytes) (v : ℕ)
      → drop ciphertext_version_size (envelope c key v nonce plain)
        ≡ nonce ++ c.seal key nonce plain (put_uint32 v)
  unfolding put_uint32
  rest_of-envelope key nonce plain v = refl

  uint32-envelope :
      (key nonce plain : Bytes) (v : ℕ) → v < 2 ^ 32 → uint32 (envelope c key v nonce plain) ≡ v
  unfolding put_uint32 uint32
  uint32-envelope key nonce plain v small = uint32-put_uint32 v small

  longer-envelope :
      (key nonce plain : Bytes) (v : ℕ)
      → ltb (length (envelope c key v nonce plain)) ciphertext_version_size ≡ false
  unfolding put_uint32
  longer-envelope key nonce plain v = ground arith

  -- The end of Decrypt, at what Encrypt made with the same material
  open_with-envelope :
      CryptoLaws c
      → (key nonce plain : Bytes) (v : ℕ) → c.is_key key ≡ true
      → length nonce ≡ c.nonce_size
      → open_with c key (envelope c key v nonce plain) ≡ ok plain
  unfolding open_with put_uint32
  open_with-envelope laws key nonce plain v fits size =
      let sealed = c.seal key nonce plain (put_uint32 v) in
      let rest = nonce ++ sealed in
      let front : take c.nonce_size rest ≡ nonce =
        ap (λ n. take n rest) (sym size) ∙ take-append nonce sealed in
      let back : drop c.nonce_size rest ≡ sealed =
        ap (λ n. drop n rest) (sym size) ∙ drop-append nonce sealed in
      let enough : ltb (length rest) c.nonce_size ≡ false =
        ground (arith, size, length-append nonce sealed) in
      let undone = laws.open_sealed-seal key nonce plain (put_uint32 v) fits size in
      rw (open_with, fits, enough, front, back, undone) refl

  decrypt-envelope :
      CryptoLaws c
      → (s : MemoryStore) (id : String) (k : KeyRecord) (key nonce plain : Bytes) (v : ℕ)
      → Dict.get s.keys id ≡ some k
      → k.status ≢ "suspended"
      → Dict.get (materials_of s id) v ≡ some key
      → v < 2 ^ 32
      → c.is_key key ≡ true
      → length nonce ≡ c.nonce_size
      → decrypt c s id (c.encode (envelope c key v nonce plain)) ≡ ok plain
  unfolding decrypt
  decrypt-envelope laws s id k key nonce plain v found usable stored small fits size =
      let open_to : str_eq k.status "suspended" ≡ false =
        str_eq-false k.status "suspended" usable in
      let read = laws.decode-encode (envelope c key v nonce plain) in
      let long = longer-envelope key nonce plain v in
      let version = uint32-envelope key nonce plain v small in
      rw (decrypt, found, open_to, read, long, version, stored)
        (open_with-envelope laws key nonce plain v fits size)

  -- What Encrypt made, when it succeeds
  encrypt-ok :
      (s : MemoryStore) (id : String) (k : KeyRecord) (key nonce plain : Bytes) (text : String)
      → Dict.get s.keys id ≡ some k
      → Dict.get (materials_of s id) k.latest_version ≡ some key
      → encrypt c s id plain (some nonce) ≡ ok text
      → (c.is_key key ≡ true) × (c.encode (envelope c key k.latest_version nonce plain) ≡ text)
  unfolding encrypt
  encrypt-ok s id k key nonce plain text found stored done =
      let material : material_at (materials_of s id) k.latest_version ≡ key =
        rw (material_at, stored) refl in
      elim (Bool-cases (str_eq k.status "active")) [
        | inr inactive ↦ absurd (cc (rw (encrypt, found, inactive) at done))
        | inl active ↦ elim (Bool-cases (c.is_key key)) [
          | inr unfit ↦ absurd (cc (rw (encrypt, found, active, material, unfit) at done))
          | inl fit ↦ (fit, cc (rw (encrypt, found, active, material, fit) at done))
        ]
      ]

  -- Encrypt with an active key whose latest material fits
  pub encrypt_active :
      (s : MemoryStore) (id : String) (k : KeyRecord) (first nonce plain : Bytes)
      → Dict.get s.keys id ≡ some k
      → str_eq k.status "active" ≡ true
      → 1 ≤ k.latest_version
      → Chained c s id first k.latest_version
      → c.is_key (derived c first k.latest_version) ≡ true
      → encrypt c s id plain (some nonce)
        ≡ ok (c.encode (envelope c (derived c first k.latest_version) k.latest_version nonce plain))
  unfolding encrypt
  encrypt_active s id k first nonce plain found active low chain fit =
      let v = k.latest_version in
      let stored = material-Chained s id first v v low (omega arith) chain in
      let material : material_at (materials_of s id) v ≡ derived c first v =
        rw (material_at, stored) refl in
      rw (encrypt, found, active, material, fit)
        (ap (λ key. ok (c.encode (envelope c key v nonce plain))) material)

  -- Two stores in which a key has the same first material
  pub decrypt-encrypt :
      CryptoLaws c
      → (s s' : MemoryStore) (id : String) (k k' : KeyRecord) (first : Bytes)
      → Dict.get s.keys id ≡ some k
      → Dict.get s'.keys id ≡ some k'
      → Chained c s id first k.latest_version
      → Chained c s' id first k'.latest_version
      → 1 ≤ k.latest_version
      → k.latest_version ≤ k'.latest_version
      → k.latest_version < 2 ^ 32
      → k'.status ≢ "suspended"
      → (nonce plain : Bytes) (text : String) → length nonce ≡ c.nonce_size
      → encrypt c s id plain (some nonce) ≡ ok text
      → decrypt c s' id text ≡ ok plain
  decrypt-encrypt laws s s' id k k' first found found' chain chain' low up small usable nonce plain
        text size done =
      let v = k.latest_version in
      let key = derived c first v in
      let stored = material-Chained s id first v v low (omega arith) chain in
      let stored' = material-Chained s' id first k'.latest_version v low up chain' in
      let (fit, made) = encrypt-ok s id k key nonce plain text found stored done in
      subst (λ t. decrypt c s' id t ≡ ok plain) made
        (decrypt-envelope laws s' id k' key nonce plain v found' usable stored' small fit size)
