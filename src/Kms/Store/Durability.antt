-- ===== src/Kms/Store/Durability.antt =====
-- What Encrypt of kms/store_memory.go has made stays readable: after later requests to the store, and
-- on a server that is started anew with the same --key.
use mathlib.Core.Path.{subst}
use sakumock.Core.IdGenerator
use sakumock.Core.IdGenerator.{IdGenerator}
use sakumock.Dict
use sakumock.Kms.Crypto.{Bytes, Crypto, CryptoLaws, KeyLaws}
use sakumock.Kms.Store
use sakumock.Kms.Store.{MemoryStore, KeyRecord, KeyError, Time, preset_record}
use sakumock.Kms.Store.Chain.{Chained, derived}
use sakumock.Kms.Store.Cipher.{encrypt, decrypt}
use sakumock.Kms.Store.Requests.{
  Request, after_rotate, serve, run, IsWellFormed, Spares, SparesAll, Advances,
}
use sakumock.Kms.Store.Requests
use sakumock.Kms.Store.RoundTrip.{decrypt-encrypt, encrypt_active}
use sakumock.Kms.Store.Versions.{preset_reserved}
use sakumock.Kms.Store.WellFormed.{serve-IsWellFormed}
use sakumock.Prelude.{
  ℕ, zero, suc, ◌^◌, ◌<◌, ◌≤◌, ◌≡◌, ◌≢◌, refl, ap, ◌∙◌, String, List, [], ◌∷◌, none, some, ok,
  arith, length, str_ne, string_eq, pos, Option-cases, inl, inr,
}

read-ok :
    (s : MemoryStore) (id : String) (k : KeyRecord)
    → Store.read s id ≡ ok k
    → Dict.get s.keys id ≡ some k
unfolding Store.read
read-ok s id k h = elim (Option-cases (Dict.get s.keys id)) [
  | inl missing ↦ absurd (cc (rw (Store.read, missing) at h))
  | inr (k', found) ↦ cc (found, rw (Store.read, found) at h)
]

module _ (c : Crypto) where
  run-Advances :
      (requests : List Request) (s s' : MemoryStore) (id : String)
      → IsWellFormed c s
      → SparesAll c id requests s
      → run c requests s ≡ some s'
      → IsWellFormed c s' × Advances c s s' id
  unfolding run
  run-Advances [] s s' id well spared done =
      let same : s ≡ s' = cc done in
      subst (λ t. IsWellFormed c t × Advances c s t id) same
        (well, λ k first found chained. (k, found, omega arith, chained))
  run-Advances (r ∷ requests) s s' id well (spared, later) done =
      let (s₁, one, (well₁, up₁)) = serve-IsWellFormed c s r well in
      let (well₂, up₂) =
        run-Advances requests s₁ s' id well₁ (rw one at later) (rw (run, one) at done) in
      (
        well₂,
        λ k first found chained.
            let (k₁, found₁, higher₁, chained₁) = up₁ id spared k first found chained in
            let (k₂, found₂, higher₂, chained₂) = up₂ k₁ first found₁ chained₁ in
            (k₂, found₂, omega (arith, higher₁, higher₂), chained₂),
      )

  preset-free :
      (s s' : MemoryStore) (id : String) (material : Bytes) (n : ℕ) (now : Time)
      → Store.preset c s id material (pos (suc n)) now ≡ some (s', none)
      → (IdGenerator.reserve s.ids id "kms").1 ≡ none
  unfolding Store.preset
  preset-free s s' id material n now done =
      elim (Option-cases (IdGenerator.reserve s.ids id "kms").1) [
        | inl free ↦ free
        | inr (e, refused) ↦ absurd (cc (rw (Store.preset, refused) at done))
      ]

  -- A preset that succeeded
  pub preset-Chained :
      (s s' : MemoryStore) (id : String) (material : Bytes) (n : ℕ) (now : Time)
      → Store.preset c s id material (pos (suc n)) now ≡ some (s', none)
      → (Dict.get s'.keys id ≡ some (preset_record c id (suc n) now))
        × Chained c s' id material (suc n)
  preset-Chained s s' id material n now done =
      let (made, redone, keys, ids, chain, others) =
        preset_reserved c s id material n now (preset-free s s' id material n now done) in
      let same : made ≡ s' = cc (done, redone) in
      let there = Dict.get-put_self s.keys id (preset_record c id (suc n) now) in
      subst
        (λ t.
          (Dict.get t.keys id ≡ some (preset_record c id (suc n) now))
          × Chained c t id material (suc n))
        same (ap (λ d. Dict.get d id) keys ∙ there, chain)

  served_preset :
      (s s' : MemoryStore) (id : String) (material : Bytes) (n : ℕ) (now : Time)
      → Store.preset c s id material (pos (suc n)) now ≡ some (s', none)
      → serve c s (Requests.preset id material (pos (suc n)) now) ≡ some s'
  unfolding serve
  served_preset s s' id material n now done = ap after_rotate done

  pub preset-IsWellFormed :
      (s s' : MemoryStore) (id : String) (material : Bytes) (n : ℕ) (now : Time)
      → IsWellFormed c s
      → Store.preset c s id material (pos (suc n)) now ≡ some (s', none)
      → IsWellFormed c s'
  preset-IsWellFormed s s' id material n now well done =
      let (made, one, (well', _)) =
        serve-IsWellFormed c s (Requests.preset id material (pos (suc n)) now) well in
      let same : made ≡ s' = cc (one, served_preset s s' id material n now done) in
      subst (IsWellFormed c) same well'

  -- What a well-formed store encrypts with its latest version of a key, below 2 ^ 32, it decrypts
  -- after any later requests, unless the key is suspended by then. None of the requests presets the
  -- key anew or creates a key that is given its ID, and the nonce has the AEAD's size.
  pub decrypt_after_requests :
      CryptoLaws c
      → (requests : List Request) (s s' : MemoryStore) (id : String) (k k' : KeyRecord)
      → (nonce plain : Bytes) (text : String) → IsWellFormed c s
      → SparesAll c id requests s
      → Store.read s id ≡ ok k
      → k.latest_version < 2 ^ 32
      → length nonce ≡ c.nonce_size
      → encrypt c s id plain (some nonce) ≡ ok text
      → run c requests s ≡ some s'
      → Store.read s' id ≡ ok k'
      → k'.status ≢ "suspended"
      → decrypt c s' id text ≡ ok plain
  decrypt_after_requests laws requests s s' id k k' nonce plain text well spared here small size
        made served here' usable =
      let found = read-ok s id k here in
      let (own, low, (first, chained)) = well id k found in
      let (_, up) = run-Advances requests s s' id well spared served in
      let (k₁, found₁, higher, chained₁) = up k first found chained in
      let same : k₁ ≡ k' = cc (found₁, read-ok s' id k' here') in
      decrypt-encrypt c laws s s' id k k' first found (read-ok s' id k' here') chained
        (subst (λ x. Chained c s' id first x.latest_version) same chained₁) low
        (subst (λ x. k.latest_version ≤ x.latest_version) same higher) small usable nonce plain text
        size made

  -- A key that is preset on a well-formed store and then used through any requests that do not make
  -- it anew encrypts with its latest version, below 2 ^ 32. Another store that presets the key with
  -- the same material, as rotated to that version or a later one, decrypts the text.
  pub decrypt_after_restart :
      CryptoLaws c
      → (requests : List Request) (s₀ s₁ s t t' : MemoryStore) (id : String) (k : KeyRecord)
      → (material nonce plain : Bytes) (m n : ℕ) (now later : Time) (text : String)
      → IsWellFormed c s₀
      → Store.preset c s₀ id material (pos (suc m)) now ≡ some (s₁, none)
      → SparesAll c id requests s₁
      → run c requests s₁ ≡ some s
      → Store.read s id ≡ ok k
      → k.latest_version < 2 ^ 32
      → length nonce ≡ c.nonce_size
      → encrypt c s id plain (some nonce) ≡ ok text
      → Store.preset c t id material (pos (suc n)) later ≡ some (t', none)
      → k.latest_version ≤ suc n
      → decrypt c t' id text ≡ ok plain
  decrypt_after_restart laws requests s₀ s₁ s t t' id k material nonce plain m n now later text well
        begun spared served here small size made restarted high =
      let (found₁, chain₁) = preset-Chained s₀ s₁ id material m now begun in
      let (found', chain') = preset-Chained t t' id material n later restarted in
      let well₁ = preset-IsWellFormed s₀ s₁ id material m now well begun in
      let (_, up) = run-Advances requests s₁ s id well₁ spared served in
      let (k₁, found, higher, chained) = up _ material found₁ chain₁ in
      let same : k₁ ≡ k = cc (found, read-ok s id k here) in
      let chain = subst (λ x. Chained c s id material x.latest_version) same chained in
      decrypt-encrypt c laws s t' id k (preset_record c id (suc n) later) material
        (read-ok s id k here) found' chain chain'
        (omega (arith, higher, ap (λ x. x.latest_version) same)) high small
        (str_ne "active" "suspended" refl) nonce plain text size made

  length-derived :
      KeyLaws c → (first : Bytes) (v : ℕ) → length first ≡ 32 → length (derived c first v) ≡ 32
  length-derived laws first zero size = size
  length-derived laws first (suc zero) size = size
  length-derived laws first (suc (suc n)) size = laws.length-sha256 (derived c first (suc n))

  -- A key that is preset with a material of 32 bytes on a well-formed store can be encrypted with,
  -- whatever requests that do not make it anew have come since, as long as it is active: Encrypt
  -- returns a text. SHA-256 makes 32 bytes and AES-256 takes them.
  encrypt_after_preset :
      KeyLaws c
      → (requests : List Request) (s₀ s₁ s : MemoryStore) (id : String) (k : KeyRecord)
      → (material nonce plain : Bytes) (m : ℕ) (now : Time) → IsWellFormed c s₀
      → length material ≡ 32
      → Store.preset c s₀ id material (pos (suc m)) now ≡ some (s₁, none)
      → SparesAll c id requests s₁
      → run c requests s₁ ≡ some s
      → Store.read s id ≡ ok k
      → k.status ≡ "active"
      → (text : String) × (encrypt c s id plain (some nonce) ≡ ok text)
  encrypt_after_preset laws requests s₀ s₁ s id k material nonce plain m now well size begun spared
        served here active =
      let (found₁, chain₁) = preset-Chained s₀ s₁ id material m now begun in
      let well₁ = preset-IsWellFormed s₀ s₁ id material m now well begun in
      let (_, up) = run-Advances requests s₁ s id well₁ spared served in
      let (k₁, found, higher, chained) = up _ material found₁ chain₁ in
      let same : k₁ ≡ k = cc (found, read-ok s id k here) in
      let chain = subst (λ x. Chained c s id material x.latest_version) same chained in
      let low : 1 ≤ k.latest_version = omega (arith, higher, ap (λ x. x.latest_version) same) in
      let fit =
        laws.is_key-32 (derived c material k.latest_version)
          (length-derived laws material k.latest_version size) in
      (
        _,
        encrypt_active c s id k material nonce plain (read-ok s id k here)
            ((string_eq.beq_iff k.status "active").1 active) low chain fit,
      )
