-- ===== src/Kms/Tests.antt =====
-- The theorems on kms/ at concrete inputs, with a toy in place of the cryptography.
use Prim.Native.Char.{code}
use sakumock.Core.IdGenerator
use sakumock.Core.IdGenerator.{IdGenerator}
use sakumock.Core.Decimal.{parse_int}
use sakumock.Dict
use sakumock.Kms.Crypto.{KeyLaws, Bytes, Crypto, CryptoLaws}
use sakumock.Kms.Store
use sakumock.Kms.Store.{MemoryStore, KeyRecord, new_memory_store, preset_record}
use sakumock.Kms.Store.Chain.{Chained, derived}
use sakumock.Kms.Store.Cipher.{encrypt, decrypt, envelope}
use sakumock.Kms.Store.Durability.{
  preset-Chained, preset-IsWellFormed, decrypt_after_requests, decrypt_after_restart,
}
use sakumock.Kms.Store.Requests.{Request, run, serve, SparesAll, Spares, Advances, IsWellFormed}
use sakumock.Kms.Store.RoundTrip.{encrypt_active}
use sakumock.Kms.Store.Versions.{preset_reserved, rotate_active, rotated_record}
use sakumock.Kms.Store.WellFormed.{serve-IsWellFormed, new_memory_store-IsWellFormed}
use sakumock.Prelude.{
  ℕ, zero, suc, ◌≡◌, refl, ap, String, [], ◌∷◌, ◌++◌, Option, none, some, ok, pos, true, ◌==◌,
  if◌then◌else◌, drop, length, str_ne, ◌∙◌, str_ne, drop-append, string_eq, arith,
}

-- A number as so many a's and a b
abbrev digits : ℕ → String → String
digits zero rest = String.◌∷◌ "b" rest
digits (suc n) rest = String.◌∷◌ "a" (digits n rest)

abbrev write : Bytes → String
write [] = ""
write (n ∷ bytes) = digits n (write bytes)

abbrev bump : Option Bytes → Option Bytes
bump none = none
bump (some []) = none
bump (some (n ∷ bytes)) = some (suc n ∷ bytes)

abbrev begin : Option Bytes → Option Bytes
begin none = none
begin (some bytes) = some (zero ∷ bytes)

abbrev scan : String → Option Bytes
scan String.[] = some []
scan (String.◌∷◌ c s) = let rest = scan s in if code c == 98 then begin rest else bump rest

scan-digits :
    (n : ℕ) (s : String) (bytes : Bytes)
    → scan s ≡ some bytes
    → scan (digits n s) ≡ some (n ∷ bytes)
scan-digits zero s bytes h = ap begin h
scan-digits (suc n) s bytes h = ap bump (scan-digits n s bytes h)

scan-write : (bytes : Bytes) → scan (write bytes) ≡ some bytes
scan-write [] = refl
scan-write (n ∷ bytes) = scan-digits n (write bytes) bytes (scan-write bytes)

abbrev digest : Bytes
digest =
    7 ∷ 7 ∷ 7 ∷ 7 ∷ 7 ∷ 7 ∷ 7 ∷ 7 ∷ 7 ∷ 7 ∷ 7 ∷ 7 ∷ 7 ∷ 7 ∷ 7 ∷ 7 ∷ 7 ∷ 7 ∷ 7 ∷ 7 ∷ 7 ∷ 7 ∷ 7 ∷ 7
    ∷ 7 ∷ 7 ∷ 7 ∷ 7 ∷ 7 ∷ 7 ∷ 7 ∷ 7 ∷ []

abbrev toy : Crypto
toy = record {
  sha256 = λ _. digest;
  is_key = λ _. true;
  nonce_size = 2;
  seal = λ key nonce plain extra. key ++ plain;
  open_sealed = λ key nonce sealed extra. some (drop (length key) sealed);
  encode = write;
  decode = scan;
}

toy-CryptoLaws : CryptoLaws toy
toy-CryptoLaws = record {
  open_sealed-seal = λ key nonce plain extra _ _. ap some (drop-append key plain);
  decode-encode = scan-write;
}

toy-KeyLaws : KeyLaws toy
toy-KeyLaws = record { is_key-32 = λ key _. refl; length-sha256 = λ _. refl }

abbrev ids : IdGenerator
ids = record { next = pos 900; reserved = Dict.empty }

abbrev first_server : MemoryStore
first_server = new_memory_store ids

not_reserved_42 : (IdGenerator.reserve ids "42" "kms").1 ≡ none
unfolding IdGenerator.reserve IdGenerator.advance_to parse_int
not_reserved_42 = let free = Dict.get-empty {K = String} {V = String} "42" in ground arith

free_42 : (IdGenerator.reserve first_server.ids "42" "kms").1 ≡ none
unfolding new_memory_store
free_42 = not_reserved_42

abbrev material : Bytes
material = digest

-- The server that is started with version 1 of the key
abbrev started : MemoryStore
started = (preset_reserved toy first_server "42" material 0 10 free_42).0

started_so : Store.preset toy first_server "42" material (pos 1) 10 ≡ some (started, none)
started_so = (preset_reserved toy first_server "42" material 0 10 free_42).1

abbrev first_key : KeyRecord
first_key = preset_record toy "42" 1 10

started_key : (Dict.get started.keys "42" ≡ some first_key) × Chained toy started "42" material 1
started_key = preset-Chained toy first_server started "42" material 0 10 started_so

-- The key rotated once
abbrev rotated : MemoryStore
rotated =
    (rotate_active toy started "42" first_key material 20 started_key.0 refl (omega arith)
      started_key.1).0

rotated_so : run toy (Request.rotate "42" 20 ∷ []) started ≡ some rotated
unfolding run serve
rotated_so =
    let done =
      (rotate_active toy started "42" first_key material 20 started_key.0 refl (omega arith)
        started_key.1).1 in
    rw (run, serve, done) refl

abbrev second_key : KeyRecord
second_key = rotated_record toy first_key 20

rotated_key : Dict.get rotated.keys "42" ≡ some second_key
rotated_key =
    ap (λ d. Dict.get d "42")
      (rotate_active toy started "42" first_key material 20 started_key.0 refl (omega arith)
        started_key.1).2
    ∙ Dict.get-put_self started.keys "42" second_key

rotated_chain : Chained toy rotated "42" material 2
rotated_chain =
    (rotate_active toy started "42" first_key material 20 started_key.0 refl (omega arith)
      started_key.1).4

read_found :
    (s : MemoryStore) (k : KeyRecord) → Dict.get s.keys "42" ≡ some k → Store.read s "42" ≡ ok k
unfolding Store.read
read_found s k found = rw (Store.read, found) refl

first_server-IsWellFormed : IsWellFormed toy first_server
first_server-IsWellFormed = new_memory_store-IsWellFormed toy ids

started-IsWellFormed : IsWellFormed toy started
started-IsWellFormed =
    preset-IsWellFormed toy first_server started "42" material 0 10 first_server-IsWellFormed
      started_so

spared : SparesAll toy "42" (Request.rotate "42" 20 ∷ []) started
unfolding serve
spared =
    let done =
      (rotate_active toy started "42" first_key material 20 started_key.0 refl (omega arith)
        started_key.1).1 in
    (tt, rw (serve, done) tt)

-- The text of "hi" under version 1, with the nonce 8 9
abbrev text : String
text = write (envelope toy (derived toy material 1) 1 (8 ∷ 9 ∷ []) (104 ∷ 105 ∷ []))

text_so : encrypt toy started "42" (104 ∷ 105 ∷ []) (some (8 ∷ 9 ∷ [])) ≡ ok text
text_so =
    encrypt_active toy started "42" first_key material (8 ∷ 9 ∷ []) (104 ∷ 105 ∷ []) started_key.0
      refl (omega arith) started_key.1 refl

decrypt_after_requests_example : decrypt toy rotated "42" text ≡ ok (104 ∷ 105 ∷ [])
decrypt_after_requests_example =
    decrypt_after_requests toy toy-CryptoLaws (Request.rotate "42" 20 ∷ []) started rotated "42"
      first_key second_key (8 ∷ 9 ∷ []) (104 ∷ 105 ∷ []) text started-IsWellFormed spared
      (read_found started first_key started_key.0) (omega arith) refl text_so rotated_so
      (read_found rotated second_key rotated_key) (str_ne "active" "suspended" refl)

-- Another server that is started with version 3 of the key
abbrev restarted : MemoryStore
restarted = (preset_reserved toy first_server "42" material 2 99 free_42).0

restarted_so : Store.preset toy first_server "42" material (pos 3) 99 ≡ some (restarted, none)
restarted_so = (preset_reserved toy first_server "42" material 2 99 free_42).1

no_requests : run toy [] started ≡ some started
unfolding run
no_requests = refl

decrypt_after_restart_example : decrypt toy restarted "42" text ≡ ok (104 ∷ 105 ∷ [])
decrypt_after_restart_example =
    decrypt_after_restart toy toy-CryptoLaws [] first_server started started first_server restarted
      "42" first_key material (8 ∷ 9 ∷ []) (104 ∷ 105 ∷ []) 0 2 10 99 text first_server-IsWellFormed
      started_so tt no_requests (read_found started first_key started_key.0) (omega arith) refl
      text_so restarted_so (omega arith)

serve-IsWellFormed_example :
    (s' : MemoryStore) × (serve toy started (Request.rotate "42" 20) ≡ some s')
    × (IsWellFormed toy s'
        × ((id : String)
            → Spares toy id started (Request.rotate "42" 20)
            → Advances toy started s' id))
serve-IsWellFormed_example =
    serve-IsWellFormed toy started (Request.rotate "42" 20) started-IsWellFormed
