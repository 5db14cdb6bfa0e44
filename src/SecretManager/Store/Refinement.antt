-- ===== src/SecretManager/Store/Refinement.antt =====
-- Requests to MemoryStore of secretmanager/store_memory.go against an abstract service that keeps whole
-- histories.
use sakumock.Core.IdGenerator
use sakumock.Core.IdGenerator.{IdGenerator}
use sakumock.Dict
use sakumock.Dict.{Dict}
use sakumock.SecretManager.Store
use sakumock.SecretManager.Store.{
  MemoryStore, Secret, SecretError, Time, secret_not_found, version_not_found, add_version,
  secret_or_new, version_or_latest, vault_or_new,
}
use sakumock.SecretManager.Store.Histories.{Represents, retained}
use sakumock.Prelude.{
  ℕ, suc, ◌≤◌, ◌≡◌, refl, ap, ◌∙◌, String, List, [], ◌∷◌, Option, none, some, Result, ok, err, Bool,
  false, ◌&&◌, ◌||◌, length, ℤ, pos, negsuc, str_eq, string_eq, nat_eq, if◌then◌else◌, arith,
  is_some, Option-cases, inl, inr,
}

-- A request that changes the store
pub data Request : Type 0 where
  create_vault : String → String → String → List String → Time → Request
  update_vault : String → String → String → List String → Time → Request
  delete_vault : String → Request
  create : String → String → String → Request
  delete : String → String → Request

unfoldable pub serve : MemoryStore → Request → MemoryStore
serve s (create_vault name key description tags now) =
    (Store.create_vault s name key description tags now).0
serve s (update_vault id name description tags now) =
    (Store.update_vault s id name description tags now).0
serve s (delete_vault id) = (Store.delete_vault s id).0
serve s (create vault_id name value) = (Store.create s vault_id name value).0
serve s (delete vault_id name) = (Store.delete s vault_id name).0

-- The abstract service: which vaults are registered, and the values that each secret has had since
-- it was last deleted, the newest first.
pub record Service : Type 0 where
  pub registered : String → Bool
  pub history : String → String → List String
  pub ids : IdGenerator

unfoldable pub step : Service → Request → Service
step t (create_vault name key description tags now) =
    let (ids, id) = IdGenerator.next_id t.ids in
    record t { registered = λ i. str_eq id i || t.registered i; ids = ids }
step t (update_vault id name description tags now) = t
step t (delete_vault id) =
    if t.registered id
    then record t {
      registered = λ i. if str_eq id i then false else t.registered i;
      history = λ v n. if str_eq id v then [] else t.history v n;
    }
    else t
step t (create vault_id name value) = record t {
  history =
      λ v n. if str_eq vault_id v && str_eq name n then value ∷ t.history v n else t.history v n;
}
step t (delete vault_id name) = record t {
  history = λ v n. if str_eq vault_id v && str_eq name n then [] else t.history v n;
}

-- What Unveil returns of a history
unfoldable pub answer_version : List String → ℤ → Result SecretError (String × ℕ)
answer_version values (negsuc n) = err (version_not_found (negsuc n))
answer_version values (pos n) = elim (retained values n) [
  | none ↦ err (version_not_found (pos n))
  | some value ↦ ok (value, n)
]

unfoldable pub answer : List String → ℤ → Result SecretError (String × ℕ)
answer [] version = err secret_not_found
answer (x ∷ older) version =
    answer_version (x ∷ older) (version_or_latest version (suc (length older)))

abbrev pub secret_in : Option (Dict String Secret) → String → Option Secret
secret_in none name = none
secret_in (some vault) name = Dict.get vault name

abbrev pub Matches : Option Secret → List String → Type 0
Matches none values = values ≡ []
Matches (some sec) values = Represents sec values × (1 ≤ length values)

-- The store implements the state of the abstract service.
pub record Implements (s : MemoryStore) (t : Service) : Type 0 where
  pub same_ids : s.ids ≡ t.ids
  pub same_vaults : (id : String) → is_some (Dict.get s.vault_records id) ≡ t.registered id
  pub same_secrets :
      (vault_id name : String)
      → Matches (secret_in (Dict.get s.vaults vault_id) name) (t.history vault_id name)

read_version-answer :
    (sec : Secret) (values : List String) (chosen : ℤ)
    → Represents sec values
    → Store.read_version sec chosen ≡ answer_version values chosen
unfolding Store.read_version answer_version
read_version-answer sec values (negsuc n) same = refl
read_version-answer sec values (pos n) same = rw (Store.read_version, same.1 n) refl

chosen-answer :
    (sec : Secret) (values : List String) (version : ℤ)
    → Matches (some sec) values
    → Store.read_version sec (version_or_latest version sec.latest) ≡ answer values version
unfolding answer
chosen-answer sec [] version (same, some_value) = absurd (omega (arith, some_value))
chosen-answer sec (x ∷ older) version (same, some_value) =
    read_version-answer sec (x ∷ older) (version_or_latest version sec.latest) same
    ∙ ap (λ n. answer_version (x ∷ older) (version_or_latest version n)) same.0

pub unveil-answer :
    (s : MemoryStore) (t : Service)
    → Implements s t
    → (vault_id name : String) (version : ℤ)
    → Store.unveil s vault_id name version ≡ answer (t.history vault_id name) version
unfolding Store.unveil answer
unveil-answer s t same vault_id name version =
    let h = same.same_secrets vault_id name in
    elim (Option-cases (Dict.get s.vaults vault_id)) [
      | inl no_vault ↦ rw (Store.unveil, no_vault, rw no_vault at h) refl
      | inr (vault, there) ↦ elim (Option-cases (Dict.get vault name)) [
        | inl no_secret ↦
            let nothing : t.history vault_id name ≡ [] = rw (there, no_secret) at h in
            rw (Store.unveil, there, no_secret, nothing) refl
        | inr (sec, found) ↦
            let m : Matches (some sec) (t.history vault_id name) = rw (there, found) at h in
            rw (Store.unveil, there, found) (chosen-answer sec (t.history vault_id name) version m)
      ]
    ]
