-- ===== src/EventBus/Store.antt =====
-- MemoryStore of eventbus/store_memory.go, with the types of eventbus/store.go. The mutex makes each
-- method one step. The time is an argument. A json.RawMessage is its text, and `none` where it is nil.
pub mod Firings
use sakumock.Core.IdGenerator
use sakumock.Core.IdGenerator.{IdGenerator}
use sakumock.Dict
use sakumock.Dict.{Dict}
use sakumock.Prelude.{
  ℕ, String, List, [], ◌∷◌, map, Bool, true, false, not, ◌&&◌, Option, none, some, str_eq, sort_by,
  string_eq, if◌then◌else◌,
}

-- A time.Time, in nanoseconds since the zero time
abbrev pub Time : Type 0
Time = ℕ

abbrev pub RawMessage : Type 0
RawMessage = Option String

pub record ItemStatus : Type 0 where
  pub success : Bool
  pub message : String
  pub updated_at : Time

pub record ServiceItem : Type 0 where
  pub id : String
  pub name : String
  pub description : String
  pub tags : List String
  pub provider_class : String
  pub service_class : String
  pub settings : RawMessage
  pub icon : RawMessage
  pub secret : RawMessage
  pub status : Option ItemStatus
  pub created_at : Time
  pub modified_at : Time

pub record MemoryStore : Type 0 where
  pub items : Dict String ServiceItem
  pub ids : IdGenerator

-- NewMemoryStore, with the generator that it makes
unfoldable pub new_memory_store : IdGenerator → MemoryStore
new_memory_store ids = record { items = Dict.empty; ids = ids }

-- append(json.RawMessage(nil), raw...): an empty one becomes nil.
unfoldable pub copy_raw : RawMessage → RawMessage
copy_raw none = none
copy_raw (some s) = if str_eq s "" then none else some s

-- cloneItem
unfoldable pub clone_item : ServiceItem → ServiceItem
clone_item it = record it {
  settings = copy_raw it.settings;
  icon = copy_raw it.icon;
  secret = copy_raw it.secret;
}

-- CreateItem
unfoldable pub create_item : MemoryStore → Time → ServiceItem → MemoryStore × ServiceItem
create_item s now item =
    let (ids, id) = IdGenerator.next_id s.ids in
    let stored = clone_item (record item { id = id; created_at = now; modified_at = now }) in
    (record { items = Dict.put s.items id stored; ids = ids }, clone_item stored)

-- GetItem: `none` for false
unfoldable pub get_item : MemoryStore → String → Option ServiceItem
get_item s id = elim (Dict.get s.items id) [ none ↦ none | some it ↦ some (clone_item it) ]

of_class : String → List ServiceItem → List ServiceItem
of_class provider_class [] = []
of_class provider_class (it ∷ its) =
    let rest = of_class provider_class its in
    if not (str_eq provider_class "") && not (str_eq it.provider_class provider_class)
    then rest
    else clone_item it ∷ rest

-- ListItems
unfoldable pub list_items : MemoryStore → String → List ServiceItem
unfolding of_class
list_items s provider_class = sort_by (λ it. it.id) (of_class provider_class (Dict.values s.items))

-- The change of an item that is there, and its copy
unfoldable pub change_item :
    MemoryStore → String → (ServiceItem → ServiceItem) → MemoryStore × Option ServiceItem
change_item s id change = elim (Dict.get s.items id) [
  | none ↦ (s, none)
  | some it ↦ (record s { items = Dict.put s.items id (change it) }, some (clone_item (change it)))
]

-- if settings != nil { it.Settings = append(json.RawMessage(nil), settings...) }
abbrev new_settings : RawMessage → RawMessage → RawMessage
new_settings none old = old
new_settings (some settings) old = copy_raw (some settings)

-- UpdateItem
unfoldable pub update_item :
    MemoryStore
    → Time
    → String
    → String
    → String
    → List String
    → RawMessage
    → RawMessage
    → MemoryStore × Option ServiceItem
update_item s now id name description tags settings icon = change_item s id λ it. record it {
  name = name;
  description = description;
  tags = tags;
  settings = new_settings settings it.settings;
  icon = copy_raw icon;
  modified_at = now;
}

-- DeleteItem
unfoldable pub delete_item : MemoryStore → String → MemoryStore × Option ServiceItem
delete_item s id = elim (Dict.get s.items id) [
  | none ↦ (s, none)
  | some it ↦ (record s { items = Dict.remove s.items id }, some (clone_item it))
]

-- SetSecret
unfoldable pub set_secret :
    MemoryStore → Time → String → RawMessage → MemoryStore × Option ServiceItem
set_secret s now id secret =
    change_item s id λ it. record it { secret = copy_raw secret; modified_at = now }

-- SetStatus
unfoldable pub set_status : MemoryStore → String → ItemStatus → MemoryStore × Option ServiceItem
set_status s id status = change_item s id λ it. record it { status = some status }
