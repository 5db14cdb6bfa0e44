-- ===== src/Kms/Store/Requests.antt =====
-- The requests to MemoryStore of kms/store_memory.go as steps, and what they keep.
use sakumock.Core.IdGenerator
use sakumock.Core.IdGenerator.{IdGenerator}
use sakumock.Dict
use sakumock.Dict.{Dict}
use sakumock.Kms.Crypto.{Bytes, Crypto}
use sakumock.Kms.Store
use sakumock.Kms.Store.{MemoryStore, KeyRecord, KeyError, Time, preset_record}
use sakumock.Kms.Store.Chain.{Chained}
use sakumock.Prelude.{◌≤◌, ◌≡◌, String, List, [], ◌∷◌, Option, none, some, ℤ, string_eq, nat_eq}

-- A request that changes the store, with what it draws and its time
pub data Request : Type 0 where
  preset : String → Bytes → ℤ → Time → Request
  create : String → String → String → Option (List String) → Bytes → Time → Request
  update : String → String → String → Option (List String) → Time → Request
  rotate : String → Time → Request
  change_status : String → String → Time → Request
  schedule_destruction : String → Time → Time → Request

abbrev pub after_rotate : {A : Type 0} → Option (MemoryStore × A) → Option MemoryStore
after_rotate none = none
after_rotate (some (s, _)) = some s

module _ (c : Crypto) where
  -- The store after a request, `none` after a panic
  unfoldable pub serve : MemoryStore → Request → Option MemoryStore
  serve s (preset id material version now) = after_rotate (Store.preset c s id material version now)
  serve s (create name description origin tags key now) =
      some (Store.create s name description origin tags key now).0
  serve s (update id name description tags now) =
      some (Store.update s id name description tags now).0
  serve s (rotate id now) = after_rotate (Store.rotate c s id now)
  serve s (change_status id status now) = some (Store.change_status s id status now).0
  serve s (schedule_destruction id after now) = some (Store.schedule_destruction s id after now).0

  -- A key that is stored under its ID, with the materials of its versions
  abbrev pub IsWell : MemoryStore → String → KeyRecord → Type 0
  IsWell s id k =
      (k.id ≡ id)
      × (1 ≤ k.latest_version)
      × ((first : Bytes) × Chained c s id first k.latest_version)

  abbrev pub IsWellFormed : MemoryStore → Type 0
  IsWellFormed s = (id : String) (k : KeyRecord) → Dict.get s.keys id ≡ some k → IsWell s id k

  -- The key stays, its version goes up and its chain goes on.
  abbrev pub Advances : MemoryStore → MemoryStore → String → Type 0
  Advances s s' id =
      (k : KeyRecord) (first : Bytes)
      → Dict.get s.keys id ≡ some k
      → Chained c s id first k.latest_version
      → (k' : KeyRecord) × (Dict.get s'.keys id ≡ some k')
        × (k.latest_version ≤ k'.latest_version)
        × Chained c s' id first k'.latest_version

  -- The request does not make the key anew: no preset of its ID, no creation that is given its ID.
  abbrev pub Spares : String → MemoryStore → Request → Type 0
  Spares id s (preset j material version now) = ¬ (j ≡ id)
  Spares id s (create name description origin tags key now) = ¬ ((IdGenerator.next_id s.ids).1 ≡ id)
  Spares id s _ = Unit {0}

  -- A sequence of requests, `none` after a panic
  unfoldable pub run : List Request → MemoryStore → Option MemoryStore
  run [] s = some s
  run (r ∷ requests) s = elim (serve s r) [ none ↦ none | some s' ↦ run requests s' ]

  -- No request of the sequence makes the key anew.
  abbrev pub SparesAll : String → List Request → MemoryStore → Type 0
  SparesAll id [] s = Unit {0}
  SparesAll id (r ∷ requests) s =
      Spares id s r × (elim (serve s r) [ none ↦ Unit {0} | some s' ↦ SparesAll id requests s' ])
