-- ===== src/SecretManager/Store/Answers.antt =====
-- MemoryStore of secretmanager/store_memory.go against the abstract service, over any requests.
use sakumock.Core.IdGenerator.{IdGenerator}
use sakumock.Dict
use sakumock.Dict.{Dict}
use sakumock.SecretManager.Store
use sakumock.SecretManager.Store.{
  MemoryStore, Secret, Vault, Time, add_version, secret_or_new, vault_or_new,
}
use sakumock.SecretManager.Store.Refinement.{
  answer, unveil-answer, Request, serve, Service, step, Implements, create_vault, update_vault,
  delete_vault, create, delete,
}
use sakumock.SecretManager.Store.Steps.{
  create-Implements, delete-Implements, delete_vault-Implements, update_vault-Implements,
  create_vault-Implements,
}
use sakumock.Prelude.{◌≡◌, refl, ap, String, List, [], ◌∷◌, false, ℤ, string_eq, nat_eq, is_some}

-- What the store is after a request implements what the abstract service is after it.
pub serve-Implements :
    (s : MemoryStore) (t : Service) (r : Request)
    → Implements s t
    → Implements (serve s r) (step t r)
unfolding step
serve-Implements s t (create_vault name key description tags now) same =
    create_vault-Implements s t name key description tags now same
serve-Implements s t (update_vault id name description tags now) same =
    update_vault-Implements s t id name description tags now same
serve-Implements s t (delete_vault id) same = delete_vault-Implements s t id same
serve-Implements s t (create vault_id name value) same =
    create-Implements s t vault_id name value same
serve-Implements s t (delete vault_id name) same = delete-Implements s t vault_id name same

-- The service without vaults and values
abbrev pub empty_service : IdGenerator → Service
empty_service ids = record { registered = λ _. false; history = λ _ _. []; ids = ids }

new_memory_store-Implements :
    (ids : IdGenerator) → Implements (Store.new_memory_store ids) (empty_service ids)
unfolding Store.new_memory_store
new_memory_store-Implements ids = record {
  same_ids = refl;
  same_vaults = λ id. ap is_some (Dict.get-empty {V = Vault} id);
  same_secrets = λ v n. let nothing = Dict.get-empty {V = Dict String Secret} v in rw nothing refl;
}

-- A sequence of requests, and of steps
abbrev pub serve_all : List Request → MemoryStore → MemoryStore
serve_all [] s = s
serve_all (r ∷ requests) s = serve_all requests (serve s r)

abbrev pub step_all : List Request → Service → Service
step_all [] t = t
step_all (r ∷ requests) t = step_all requests (step t r)

serve_all-Implements :
    (requests : List Request) (s : MemoryStore) (t : Service)
    → Implements s t
    → Implements (serve_all requests s) (step_all requests t)
serve_all-Implements [] s t same = same
serve_all-Implements (r ∷ requests) s t same =
    serve_all-Implements requests (serve s r) (step t r) (serve-Implements s t r same)

-- After any requests to a new store, Unveil returns what the abstract service answers: of a secret's
-- values since its last deletion, the one whose number is asked for, or the newest for 0, as long
-- as fewer than 50 newer ones have come, and an error otherwise.
pub unveil_after_requests :
    (ids : IdGenerator) (requests : List Request) (vault_id name : String) (version : ℤ)
    → Store.unveil (serve_all requests (Store.new_memory_store ids)) vault_id name version
      ≡ answer ((step_all requests (empty_service ids)).history vault_id name) version
unveil_after_requests ids requests vault_id name version =
    unveil-answer (serve_all requests (Store.new_memory_store ids))
      (step_all requests (empty_service ids))
      (serve_all-Implements requests (Store.new_memory_store ids) (empty_service ids)
        (new_memory_store-Implements ids))
      vault_id name version
