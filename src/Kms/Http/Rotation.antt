-- ===== src/Kms/Http/Rotation.antt =====
-- The responses of handleRotateKey in kms/handler.go.
use mathlib.Core.Path.{subst}
use sakumock.Dict
use sakumock.Kms.Crypto.{Crypto}
use sakumock.Kms.Http.{
  Response, written, forbidden, not_found, KeyResponse, key_record_to_response, handle_rotate_key,
}
use sakumock.Kms.Store
use sakumock.Kms.Store.{MemoryStore, KeyRecord, Time, key_not_active}
use sakumock.Kms.Store.Requests.{IsWellFormed}
use sakumock.Kms.Store.Versions.{rotate_active, rotated_record}
use sakumock.Prelude.{
  ◌≡◌, ◌≢◌, refl, sym, ap, ◌∙◌, String, Option, none, some, ok, true, false, str_eq, str_eq-false,
  string_eq, Option-cases, Bool-cases, inl, inr,
}

module _ (format : Time → String) (c : Crypto) (s : MemoryStore) (id : String) (now : Time) where
  -- Not found where there is no key, forbidden where it is not active, and the rotated key, which is
  -- what Read returns from then on, where it is
  abbrev pub Outcome : Option KeyRecord → Option (MemoryStore × Response KeyResponse) → Type 0
  Outcome none r = r ≡ some (s, not_found)
  Outcome (some k) r = elim (str_eq k.status "active") [
    | false ↦ r ≡ some (s, forbidden)
    | true ↦
        (s' : MemoryStore) × (r
          ≡ some (s', written (key_record_to_response format (rotated_record c k now))))
        × (Store.read s' id ≡ ok (rotated_record c k now))
  ]

  missing_key :
      Dict.get s.keys id ≡ none → handle_rotate_key format c s id now ≡ some (s, not_found)
  unfolding handle_rotate_key Store.rotate
  missing_key missing = rw (handle_rotate_key, Store.rotate, missing) refl

  idle_key :
      (k : KeyRecord)
      → Dict.get s.keys id ≡ some k
      → str_eq k.status "active" ≡ false
      → str_eq k.id "" ≡ false
      → handle_rotate_key format c s id now ≡ some (s, forbidden)
  unfolding handle_rotate_key Store.rotate
  idle_key k found idle named =
      let unchanged : Store.rotate c s id now ≡ some (s, (some k, some key_not_active)) =
        rw (Store.rotate, found, idle) refl in
      rw (handle_rotate_key, unchanged, named) refl

  read_key :
      (s' : MemoryStore) (k : KeyRecord) → Dict.get s'.keys id ≡ some k → Store.read s' id ≡ ok k
  unfolding Store.read
  read_key s' k there = rw (Store.read, there) refl

  active_key :
      (s' : MemoryStore) (k : KeyRecord)
      → Store.rotate c s id now ≡ some (s', (some k, none))
      → handle_rotate_key format c s id now ≡ some (s', written (key_record_to_response format k))
  unfolding handle_rotate_key
  active_key s' k done = rw (handle_rotate_key, done) refl

  -- In a well-formed store, at an ID that is not empty, handleRotateKey answers 404 exactly where the
  -- key is missing and 403 exactly where it is not active, and changes nothing then. Otherwise it
  -- answers the key with its next version, and Read returns that key from then on.
  handle_rotate_key-Outcome :
      IsWellFormed c s
      → id ≢ ""
      → Outcome (Dict.get s.keys id) (handle_rotate_key format c s id now)
  handle_rotate_key-Outcome well some_id =
      let r = handle_rotate_key format c s id now in
      elim (Option-cases (Dict.get s.keys id)) [
        | inl missing ↦ subst (λ o. Outcome o r) (sym missing) (missing_key missing)
        | inr (k, found) ↦
            let (own, low, (first, chained)) = well id k found in
            let named : str_eq k.id "" ≡ false =
              str_eq-false k.id "" (λ e. some_id (sym own ∙ e)) in
            subst (λ o. Outcome o r) (sym found)
              (elim (Bool-cases (str_eq k.status "active")) [
                | inr idle ↦ rw (Outcome, idle) (idle_key k found idle named)
                | inl active ↦
                    let (s', done, keys, _, _, _) =
                      rotate_active c s id k first now found active low chained in
                    let k' = rotated_record c k now in
                    let there : Dict.get s'.keys id ≡ some k' =
                      ap (λ d. Dict.get d id) keys ∙ Dict.get-put_self s.keys id k' in
                    rw (Outcome, active) (s', active_key s' k' done, read_key s' k' there)
              ])
      ]
