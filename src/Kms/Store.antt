-- ===== src/Kms/Store.antt =====
-- MemoryStore of kms/store_memory.go with the KeyRecord of kms/store.go and the key derivation of
-- kms/preset.go. The mutex makes each method one step. What crypto/rand draws is an argument, and
-- so is the time. The counts of LatestVersion are natural numbers: they start at 1 at least and
-- an int holds 2 ^ 63 - 1 rotations.
pub mod Cipher
pub mod Chain
pub mod Versions
pub mod Requests
pub mod Advances
pub mod WellFormed
pub mod RoundTrip
pub mod Durability
pub mod Access
use sakumock.Core.IdGenerator
use sakumock.Core.IdGenerator.{IdGenerator, ReserveError}
use sakumock.Dict
use sakumock.Dict.{Dict}
use sakumock.Kms.Crypto.{Bytes, Crypto}
use sakumock.Prelude.{
  ℕ, zero, suc, ◌+◌, ◌-◌, String, true, false, concat, List, [], Option, none, some, Result, ok,
  err, ℤ, pos, negsuc, str_eq, str_leb, sort_by, string_eq, nat_eq, ◌≡◌, if◌then◌else◌,
}

-- A time.Time, in nanoseconds since the zero time
abbrev pub Time : Type 0
Time = ℕ

pub record KeyRecord : Type 0 where
  pub id : String
  pub name : String
  pub description : String
  pub key_origin : String
  pub status : String
  pub latest_version : ℕ
  pub tags : List String
  pub created_at : Time
  pub modified_at : Time
  pub deletion_scheduled_after : Option Time

pub data KeyError : Type 0 where
  key_not_found key_not_active key_suspended : KeyError
  version_below_1 : KeyError
  not_reserved : ReserveError → KeyError
  cipher_failed nonce_failed decode_failed too_short open_failed : KeyError
  no_version : ℕ → KeyError

abbrev pub Materials : Type 0
Materials = Dict ℕ Bytes

pub record MemoryStore : Type 0 where
  pub keys : Dict String KeyRecord
  pub ids : IdGenerator
  pub key_material : Dict String Materials

-- NewMemoryStore, with the generator that it makes or is given
unfoldable pub new_memory_store : IdGenerator → MemoryStore
new_memory_store ids = record { keys = Dict.empty; ids = ids; key_material = Dict.empty }

-- m[version], nil where it is missing
abbrev pub material_at : Materials → ℕ → Bytes
material_at m version = elim (Dict.get m version) [ none ↦ [] | some b ↦ b ]

-- s.keyMaterial[id], the nil map where it is missing, which reads as an empty one
abbrev pub materials_of : MemoryStore → String → Materials
materials_of s id = elim (Dict.get s.key_material id) [ none ↦ Dict.empty | some m ↦ m ]

-- generateKeyMaterial: the writes of it, with the 32 bytes that it draws
abbrev pub generate_key_material : MemoryStore → String → Bytes → MemoryStore
generate_key_material s id key = record s {
  key_material = Dict.put s.key_material id (Dict.put Dict.empty 1 key);
}

-- if tags == nil { tags = []string{} }
abbrev pub tags_or_empty : Option (List String) → List String
tags_or_empty none = []
tags_or_empty (some tags) = tags

-- List
unfoldable pub list : MemoryStore → List KeyRecord
list s = sort_by (λ k. k.id) (Dict.values s.keys)

-- Read
unfoldable pub read : MemoryStore → String → Result KeyError KeyRecord
read s id = elim (Dict.get s.keys id) [ none ↦ err key_not_found | some k ↦ ok k ]

-- Create, with the material that it draws
unfoldable pub create :
    MemoryStore
    → String
    → String
    → String
    → Option (List String)
    → Bytes
    → Time
    → MemoryStore × KeyRecord
create s name description key_origin tags key now =
    let (ids, id) = IdGenerator.next_id s.ids in
    let k : KeyRecord = record {
      id = id;
      name = name;
      description = description;
      key_origin = key_origin;
      status = "active";
      latest_version = 1;
      tags = tags_or_empty tags;
      created_at = now;
      modified_at = now;
      deletion_scheduled_after = none;
    } in
    (generate_key_material (record s { ids = ids; keys = Dict.put s.keys id k }) id key, k)

-- Update
unfoldable pub update :
    MemoryStore
    → String
    → String
    → String
    → Option (List String)
    → Time
    → MemoryStore × Result KeyError KeyRecord
update s id name description tags now = elim (Dict.get s.keys id) [
  | none ↦ (s, err key_not_found)
  | some k ↦
      let k' : KeyRecord = record k {
        name = name;
        description = description;
        tags = tags_or_empty tags;
        modified_at = now;
      } in
      (record s { keys = Dict.put s.keys id k' }, ok k')
]

-- ChangeStatus: `none` where it returns no error.
unfoldable pub change_status : MemoryStore → String → String → Time → MemoryStore × Option KeyError
change_status s id status now = elim (Dict.get s.keys id) [
  | none ↦ (s, some key_not_found)
  | some k ↦
      let k' : KeyRecord = record k {
        status = status;
        deletion_scheduled_after = none;
        modified_at = now;
      } in
      (record s { keys = Dict.put s.keys id k' }, none)
]

-- ScheduleDestruction
unfoldable pub schedule_destruction :
    MemoryStore → String → Time → Time → MemoryStore × Result KeyError KeyRecord
schedule_destruction s id after now = elim (Dict.get s.keys id) [
  | none ↦ (s, err key_not_found)
  | some k ↦
      let k' : KeyRecord = record k {
        status = "pending_destruction";
        deletion_scheduled_after = some after;
        modified_at = now;
      } in
      (record s { keys = Dict.put s.keys id k' }, ok k')
]

module _ (c : Crypto) where
  -- nextKeyMaterial
  abbrev pub next_key_material : Bytes → Bytes
  next_key_material material = c.sha256 material

  -- rotateKeyMaterial: `none` is the panic of a write to a nil map.
  unfoldable pub rotate_key_material : MemoryStore → String → ℕ → Option MemoryStore
  rotate_key_material s id version = elim (Dict.get s.key_material id) [
    | none ↦ none
    | some m ↦ some (record s {
      key_material =
          Dict.put s.key_material id
            (Dict.put m version (next_key_material (material_at m (version - 1))));
    })
  ]

  -- Rotate returns the record with an error where the key is not active, and no record where there
  -- is no key: `none` stands for the zero KeyRecord.
  abbrev pub Rotated : Type 0
  Rotated = Option KeyRecord × Option KeyError

  -- Rotate, or its panic
  unfoldable pub rotate : MemoryStore → String → Time → Option (MemoryStore × Rotated)
  rotate s id now = elim (Dict.get s.keys id) [
    | none ↦ some (s, (none, some key_not_found))
    | some k ↦ elim (str_eq k.status "active") [
      | false ↦ some (s, (some k, some key_not_active))
      | true ↦
          let k' : KeyRecord = record k {
            latest_version = k.latest_version + 1;
            modified_at = now;
          } in
          elim (rotate_key_material (record s { keys = Dict.put s.keys id k' }) id
            k'.latest_version) [ none ↦ none | some s' ↦ some (s', (some k', none)) ]
    ]
  ]

  -- for v := 2; v <= version; v++ { s.rotateKeyMaterial(id, v) }: `count` is how many are left, of
  -- which `v` is the first.
  unfoldable pub preset_loop : MemoryStore → String → ℕ → ℕ → Option MemoryStore
  preset_loop s id v zero = some s
  preset_loop s id v (suc count) = elim (rotate_key_material s id v) [
    | none ↦ none
    | some s' ↦ preset_loop s' id (v + 1) count
  ]

  -- The record of a preset key
  abbrev pub preset_record : String → ℕ → Time → KeyRecord
  preset_record id version now = record {
    id = id;
    name = concat "preset-" id;
    description = "preset by --key";
    key_origin = "imported";
    status = "active";
    latest_version = version;
    tags = [];
    created_at = now;
    modified_at = now;
    deletion_scheduled_after = none;
  }

  -- Preset, or its panic
  unfoldable pub preset :
      MemoryStore → String → Bytes → ℤ → Time → Option (MemoryStore × Option KeyError)
  preset s id material (negsuc _) now = some (s, some version_below_1)
  preset s id material (pos zero) now = some (s, some version_below_1)
  preset s id material (pos (suc count)) now =
      let (ids, refusal) = IdGenerator.reserve s.ids id "kms" in
      elim refusal [
        | some e ↦ some (record s { ids = ids }, some (not_reserved e))
        | none ↦
            let registered : MemoryStore =
              generate_key_material
                (record s {
                  ids = ids;
                  keys = Dict.put s.keys id (preset_record id (suc count) now);
                })
                id material in
            elim (preset_loop registered id 2 count) [ none ↦ none | some s' ↦ some (s', none) ]
      ]
