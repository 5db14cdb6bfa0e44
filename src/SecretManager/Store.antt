-- ===== src/SecretManager/Store.antt =====
-- MemoryStore of secretmanager/store_memory.go, with the types of secretmanager/store.go. The mutex
-- makes each method one step. The time is an argument. A version counts from 1, and an int holds
-- 2 ^ 63 - 1 of them.
pub mod Histories
pub mod Refinement
pub mod Writes
pub mod Steps
pub mod Answers
use sakumock.Core.IdGenerator
use sakumock.Core.IdGenerator.{IdGenerator}
use sakumock.Dict
use sakumock.Dict.{Dict}
use sakumock.Prelude.{
  ℕ, zero, suc, ◌+◌, ◌-◌, String, List, [], map, Option, none, some, Bool, true, false, Result, ok,
  err, ltb, ℤ, pos, negsuc, sort_by, string_eq, nat_eq, if◌then◌else◌,
}

-- A time.Time, in nanoseconds since the zero time
abbrev pub Time : Type 0
Time = ℕ

pub record Vault : Type 0 where
  pub id : String
  pub name : String
  pub description : String
  pub kms_key_id : String
  pub tags : List String
  pub created_at : Time
  pub modified_at : Time

pub record SecretMeta : Type 0 where
  pub name : String
  pub latest_version : ℕ

-- maxSecretVersions
abbrev pub max_secret_versions : ℕ
max_secret_versions = 50

pub record Secret : Type 0 where
  pub name : String
  pub versions : Dict ℕ String
  pub latest : ℕ

pub record MemoryStore : Type 0 where
  pub vaults : Dict String (Dict String Secret)
  pub vault_records : Dict String Vault
  pub ids : IdGenerator

-- The errors of Unveil and Delete
pub data SecretError : Type 0 where
  secret_not_found : SecretError
  version_not_found : ℤ → SecretError

-- NewMemoryStore, with the generator that it makes or is given
unfoldable pub new_memory_store : IdGenerator → MemoryStore
new_memory_store ids = record { vaults = Dict.empty; vault_records = Dict.empty; ids = ids }

-- CreateVault
unfoldable pub create_vault :
    MemoryStore → String → String → String → List String → Time → MemoryStore × Vault
create_vault s name kms_key_id description tags now =
    let (ids, id) = IdGenerator.next_id s.ids in
    let v : Vault = record {
      id = id;
      name = name;
      description = description;
      kms_key_id = kms_key_id;
      tags = tags;
      created_at = now;
      modified_at = now;
    } in
    (record s { ids = ids; vault_records = Dict.put s.vault_records id v }, v)

-- GetVault
unfoldable pub get_vault : MemoryStore → String → Option Vault
get_vault s id = Dict.get s.vault_records id

-- ListVaults
unfoldable pub list_vaults : MemoryStore → List Vault
list_vaults s = sort_by (λ v. v.id) (Dict.values s.vault_records)

-- UpdateVault
unfoldable pub update_vault :
    MemoryStore → String → String → String → List String → Time → MemoryStore × Option Vault
update_vault s id name description tags now = elim (Dict.get s.vault_records id) [
  | none ↦ (s, none)
  | some v ↦
      let v' : Vault = record v {
        name = name;
        description = description;
        tags = tags;
        modified_at = now;
      } in
      (record s { vault_records = Dict.put s.vault_records id v' }, some v')
]

-- DeleteVault
unfoldable pub delete_vault : MemoryStore → String → MemoryStore × Bool
delete_vault s id = elim (Dict.get s.vault_records id) [
  | none ↦ (s, false)
  | some _ ↦ (
    record s { vault_records = Dict.remove s.vault_records id; vaults = Dict.remove s.vaults id },
    true,
  )
]

-- The vault of getOrCreateVault
abbrev pub vault_or_new : Option (Dict String Secret) → Dict String Secret
vault_or_new none = Dict.empty
vault_or_new (some vault) = vault

-- List, where a vault without secrets and one that is not there are both listed as empty
unfoldable pub list : MemoryStore → String → List SecretMeta
list s vault_id = elim (Dict.get s.vaults vault_id) [
  | none ↦ []
  | some vault ↦
      sort_by (λ m. m.name)
        (map (λ sec. record { name = sec.name; latest_version = sec.latest }) (Dict.values vault))
]

-- The secret that Create changes
abbrev pub secret_or_new : String → Option Secret → Secret
secret_or_new name none = record { name = name; versions = Dict.empty; latest = 0 }
secret_or_new name (some sec) = sec

-- delete(sec.versions, sec.latest-maxSecretVersions): a number below 0 is no key.
abbrev pub drop_oldest : ℕ → Dict ℕ String → Dict ℕ String
drop_oldest latest versions =
    if ltb latest max_secret_versions
    then versions
    else Dict.remove versions (latest - max_secret_versions)

-- sec.latest++ and what follows in Create
unfoldable pub add_version : Secret → String → Secret
add_version sec value = record sec {
  latest = suc sec.latest;
  versions = drop_oldest (suc sec.latest) (Dict.put sec.versions (suc sec.latest) value);
}

-- Create
unfoldable pub create : MemoryStore → String → String → String → MemoryStore × ℕ
create s vault_id name value =
    let vault = vault_or_new (Dict.get s.vaults vault_id) in
    let sec = add_version (secret_or_new name (Dict.get vault name)) value in
    (record s { vaults = Dict.put s.vaults vault_id (Dict.put vault name sec) }, sec.latest)

-- if version == 0 { version = sec.latest }
abbrev pub version_or_latest : ℤ → ℕ → ℤ
version_or_latest (pos zero) latest = pos latest
version_or_latest version latest = version

-- sec.versions[version] and what follows in Unveil. A number below 0 is no key.
unfoldable pub read_version : Secret → ℤ → Result SecretError (String × ℕ)
read_version sec (negsuc n) = err (version_not_found (negsuc n))
read_version sec (pos n) = elim (Dict.get sec.versions n) [
  | none ↦ err (version_not_found (pos n))
  | some value ↦ ok (value, n)
]

-- Unveil
unfoldable pub unveil : MemoryStore → String → String → ℤ → Result SecretError (String × ℕ)
unveil s vault_id name version = elim (Dict.get s.vaults vault_id) [
  | none ↦ err secret_not_found
  | some vault ↦ elim (Dict.get vault name) [
    | none ↦ err secret_not_found
    | some sec ↦ read_version sec (version_or_latest version sec.latest)
  ]
]

-- Delete: `none` where it returns no error.
unfoldable pub delete : MemoryStore → String → String → MemoryStore × Option SecretError
delete s vault_id name = elim (Dict.get s.vaults vault_id) [
  | none ↦ (s, some secret_not_found)
  | some vault ↦ elim (Dict.get vault name) [
    | none ↦ (s, some secret_not_found)
    | some _ ↦ (record s { vaults = Dict.put s.vaults vault_id (Dict.remove vault name) }, none)
  ]
]
