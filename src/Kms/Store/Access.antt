-- ===== src/Kms/Store/Access.antt =====
-- What MemoryStore of kms/store_memory.go lists, and what it refuses a suspended key.
use mathlib.Core.List.{Perm}
use mathlib.Core.Path.{subst}
use sakumock.Dict
use sakumock.Kms.Crypto.{Bytes, Crypto}
use sakumock.Kms.Store
use sakumock.Kms.Store.{MemoryStore, KeyRecord, Time, key_not_active, key_suspended}
use sakumock.Kms.Store.Cipher.{encrypt, decrypt}
use sakumock.Prelude.{
  ◌≡◌, refl, sym, String, Option, none, some, err, IsSorted, sort_by-IsSorted, sort_by-perm,
  string_eq,
}

-- List returns the stored records, each once, in the order of their IDs.
list-IsSorted :
    (s : MemoryStore)
    → IsSorted (λ k. k.id) (Store.list s) × Perm (Store.list s) (Dict.values s.keys)
unfolding Store.list
list-IsSorted s = (
  sort_by-IsSorted (λ k. k.id) (Dict.values s.keys),
  sort_by-perm (λ k. k.id) (Dict.values s.keys),
)

change_status-found :
    (s : MemoryStore) (id status : String) (k : KeyRecord) (now : Time)
    → Dict.get s.keys id ≡ some k
    → (Store.change_status s id status now).0 ≡ record s {
      keys =
          Dict.put s.keys id
            (record k { status = status; deletion_scheduled_after = none; modified_at = now });
    }
unfolding Store.change_status
change_status-found s id status k now found = rw (Store.change_status, found) refl

module _ (c : Crypto) (id : String) (plain : Bytes) (drawn : Option Bytes) (text : String) where
  -- Encrypt and Decrypt refuse the key, and Rotate returns the record and changes nothing.
  abbrev pub Refuses : MemoryStore → KeyRecord → Time → Type 0
  Refuses s k later =
      (encrypt c s id plain drawn ≡ err key_not_active)
      × (decrypt c s id text ≡ err key_suspended)
      × (Store.rotate c s id later ≡ some (s, (some k, some key_not_active)))

  -- A key that the store has, once ChangeStatus has suspended it, is neither encrypted with nor
  -- decrypted with nor rotated.
  suspended-Refuses :
      (s : MemoryStore) (k : KeyRecord) (now later : Time)
      → Dict.get s.keys id ≡ some k
      → Refuses
          (Store.change_status s id "suspended" now).0
          (record k { status = "suspended"; deletion_scheduled_after = none; modified_at = now })
          later
  unfolding encrypt decrypt Store.rotate
  suspended-Refuses s k now later found =
      let k' : KeyRecord = record k {
        status = "suspended";
        deletion_scheduled_after = none;
        modified_at = now;
      } in
      let there = Dict.get-put_self s.keys id k' in
      subst (λ t. Refuses t k' later) (sym (change_status-found s id "suspended" k now found))
        (rw (encrypt, there) refl, rw (decrypt, there) refl, rw (Store.rotate, there) refl)
