-- ===== src/EventBus/Store/Firings.antt =====
-- What the outcomes of firings that SetStatus of eventbus/store_memory.go records leave of the items.
use sakumock.Dict
use sakumock.Dict.{Dict, get-put_self, get-put_ne}
use sakumock.EventBus.Store.{
  ItemStatus, ServiceItem, MemoryStore, clone_item, get_item, change_item, set_status,
}
use sakumock.Prelude.{
  ◌≡◌, ◌≢◌, refl, sym, ap, ◌∙◌, String, List, [], ◌∷◌, Option, none, some, str_eq, str_ne, eq_iff,
  Bool-cases, Option-cases, inl, inr, string_eq, if◌then◌else◌,
}

-- The outcomes of firings, in their order
pub record_all : MemoryStore → List (String × ItemStatus) → MemoryStore
unfolding set_status
record_all s [] = s
record_all s ((id, status) ∷ firings) = record_all (set_status s id status).0 firings

-- The outcome of the last firing of the item, or the one before them all
pub last_status : String → List (String × ItemStatus) → Option ItemStatus → Option ItemStatus
last_status id [] before = before
last_status id ((fired, status) ∷ firings) before =
    last_status id firings (if str_eq fired id then some status else before)

-- The item with another outcome
abbrev pub with_status :
    (Option ItemStatus → Option ItemStatus) → Option ServiceItem → Option ServiceItem
with_status f none = none
with_status f (some it) = some (record it { status = f it.status })

with_status-same : (o : Option ServiceItem) → with_status (λ before. before) o ≡ o
with_status-same none = refl
with_status-same (some it) = refl

with_status-after :
    (f g : Option ItemStatus → Option ItemStatus) (o : Option ServiceItem)
    → with_status g (with_status f o) ≡ with_status (λ before. g (f before)) o
with_status-after f g none = refl
with_status-after f g (some it) = refl

set_status-own :
    (s : MemoryStore) (id : String) (status : ItemStatus)
    → get_item (set_status s id status).0 id ≡ with_status (λ before. some status) (get_item s id)
unfolding get_item set_status change_item clone_item
set_status-own s id status = elim (Option-cases (Dict.get s.items id)) [
  | inl e ↦ rw (change_item, e, get_item, e) refl
  | inr (it, e) ↦
      rw (change_item, get_item, e, get-put_self s.items id (record it { status = some status }))
        refl
]

set_status-other :
    (s : MemoryStore) (fired id : String) (status : ItemStatus)
    → fired ≢ id
    → get_item (set_status s fired status).0 id ≡ get_item s id
unfolding get_item set_status change_item
set_status-other s fired id status ne = elim (Option-cases (Dict.get s.items fired)) [
  | inl e ↦ rw (change_item, e) refl
  | inr (it, e) ↦
      rw
        (
          change_item,
          e,
          get_item,
          get-put_ne s.items fired id (record it { status = some status }) ne,
        )
        refl
]

set_status-get_item :
    (s : MemoryStore) (fired id : String) (status : ItemStatus)
    → get_item (set_status s fired status).0 id
      ≡ with_status (λ before. if str_eq fired id then some status else before) (get_item s id)
set_status-get_item s fired id status = elim (Bool-cases (str_eq fired id)) [
  | inl same ↦ rw (same, (eq_iff fired id).0 same) (set_status-own s id status)
  | inr other ↦ rw other (
      set_status-other s fired id status (str_ne fired id other)
      ∙ sym (with_status-same (get_item s id)))
]

-- However often schedules and triggers fire, GetItem finds each item as before, its ModifiedAt and its
-- configuration included, but for the outcome of its own last firing; and it finds no others.
pub record_all-get_item :
    (firings : List (String × ItemStatus)) (s : MemoryStore) (id : String)
    → get_item (record_all s firings) id ≡ with_status (last_status id firings) (get_item s id)
unfolding record_all last_status
record_all-get_item [] s id = sym (with_status-same (get_item s id))
record_all-get_item ((fired, status) ∷ firings) s id =
    record_all-get_item firings (set_status s fired status).0 id
    ∙ ap (with_status (last_status id firings)) (set_status-get_item s fired id status)
    ∙ with_status-after _ (last_status id firings) (get_item s id)
