-- ===== src/SecretManager/Http.antt =====
-- The handlers of secretmanager/handler.go and secretmanager/handler_vault.go. A body is the value
-- that its JSON holds, `none` where ReadJSON returns an error; an error response is its status,
-- without its text. The middleware around the handlers is not modelled. `format` is the time's
-- Format at RFC 3339.
use sakumock.Core.Paging.{parse_page, paginate}
use sakumock.SecretManager.Store
use sakumock.SecretManager.Store.{MemoryStore, Vault, SecretMeta, Time}
use sakumock.Prelude.{
  ℕ, String, List, map, length, Option, none, some, ok, err, ℤ, pos, if◌then◌else◌,
}

pub data Response (A : Type 0) : Type 0 where
  -- 200 and 201
  written created : A → Response A
  -- 204
  no_content : Response A
  -- 400 and 404
  bad_request not_found : Response A

pub record VaultJson : Type 0 where
  pub id : String
  pub created_at : String
  pub modified_at : String
  pub name : String
  pub description : String
  pub kms_key_id : String
  pub tags : List String

pub record VaultRequestBody : Type 0 where
  pub name : String
  pub description : String
  pub kms_key_id : String
  pub tags : List String

-- paginatedSecretList and paginatedVaultList
pub record PaginatedList (A : Type 0) : Type 0 where
  pub count : ℕ
  pub from : ℕ
  pub total : ℕ
  pub items : List A

pub record UnveilRequest : Type 0 where
  pub name : String
  pub version : Option ℤ

pub record UnveilResponse : Type 0 where
  pub name : String
  pub version : ℕ
  pub value : String

-- What the list handlers have in common; `none` is the panic of Paginate.
abbrev pub paginated : {A : Type 0} → List A → String → String → Option (Response (PaginatedList A))
paginated items from count = elim (parse_page from count) [
  | err _ ↦ some bad_request
  | ok p ↦ elim (paginate items p) [
    | none ↦ none
    | some page ↦ some (
        written (record { count = length page; from = p.from; total = length items; items = page }))
  ]
]

-- handleListSecrets
unfoldable pub handle_list_secrets :
    MemoryStore → String → String → String → Option (Response (PaginatedList SecretMeta))
handle_list_secrets s vault_id from count = paginated (Store.list s vault_id) from count

-- handleCreateSecret, with Name and Value
unfoldable pub handle_create_secret :
    MemoryStore → String → Option (String × String) → MemoryStore × Response SecretMeta
handle_create_secret s vault_id none = (s, bad_request)
handle_create_secret s vault_id (some (name, value)) =
    let (s', latest) = Store.create s vault_id name value in
    (s', created (record { name = name; latest_version = latest }))

-- handleDeleteSecret, with Name
unfoldable pub handle_delete_secret :
    MemoryStore → String → Option String → MemoryStore × Response SecretMeta
handle_delete_secret s vault_id none = (s, bad_request)
handle_delete_secret s vault_id (some name) =
    let (s', failed) = Store.delete s vault_id name in
    (s', elim failed [ some _ ↦ not_found | none ↦ no_content ])

-- version := 0; if req.Secret.Version != nil { version = *req.Secret.Version }
abbrev pub version_asked : Option ℤ → ℤ
version_asked none = pos 0
version_asked (some version) = version

-- handleUnveil
unfoldable pub handle_unveil : MemoryStore → String → Option UnveilRequest → Response UnveilResponse
handle_unveil s vault_id none = bad_request
handle_unveil s vault_id (some req) =
    elim (Store.unveil s vault_id req.name (version_asked req.version)) [
      | err _ ↦ not_found
      | ok found ↦ written (record { name = req.name; version = found.1; value = found.0 })
    ]

module _ (format : Time → String) where
  -- toVaultJSON
  abbrev pub to_vault_json : Vault → VaultJson
  to_vault_json v = record {
    id = v.id;
    created_at = format v.created_at;
    modified_at = format v.modified_at;
    name = v.name;
    description = v.description;
    kms_key_id = v.kms_key_id;
    tags = v.tags;
  }

  -- handleListVaults
  unfoldable pub handle_list_vaults :
      MemoryStore → String → String → Option (Response (PaginatedList VaultJson))
  handle_list_vaults s from count = paginated (map to_vault_json (Store.list_vaults s)) from count

  -- handleCreateVault
  unfoldable pub handle_create_vault :
      MemoryStore → Option VaultRequestBody → Time → MemoryStore × Response VaultJson
  handle_create_vault s none now = (s, bad_request)
  handle_create_vault s (some req) now =
      let (s', v) = Store.create_vault s req.name req.kms_key_id req.description req.tags now in
      (s', created (to_vault_json v))

  -- handleGetVault
  unfoldable pub handle_get_vault : MemoryStore → String → Response VaultJson
  handle_get_vault s id = elim (Store.get_vault s id) [
    | none ↦ not_found
    | some v ↦ written (to_vault_json v)
  ]

  -- handleUpdateVault
  unfoldable pub handle_update_vault :
      MemoryStore → String → Option VaultRequestBody → Time → MemoryStore × Response VaultJson
  handle_update_vault s id none now = (s, bad_request)
  handle_update_vault s id (some req) now =
      let (s', changed) = Store.update_vault s id req.name req.description req.tags now in
      (s', elim changed [ none ↦ not_found | some v ↦ written (to_vault_json v) ])

-- handleDeleteVault
unfoldable pub handle_delete_vault : MemoryStore → String → MemoryStore × Response Vault
handle_delete_vault s id =
    let (s', found) = Store.delete_vault s id in (s', if found then no_content else not_found)
