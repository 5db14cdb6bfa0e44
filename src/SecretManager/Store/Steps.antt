-- ===== src/SecretManager/Store/Steps.antt =====
-- Each request to MemoryStore of secretmanager/store_memory.go implements its step of the abstract
-- service.
use mathlib.Core.Path.{subst}
use sakumock.Core.IdGenerator
use sakumock.Core.IdGenerator.{IdGenerator}
use sakumock.Dict
use sakumock.Dict.{Dict}
use sakumock.SecretManager.Store
use sakumock.SecretManager.Store.{
  MemoryStore, Secret, Vault, Time, add_version, secret_or_new, vault_or_new,
}
use sakumock.SecretManager.Store.Refinement.{
  serve, Service, step, Matches, Implements, create_vault, update_vault, delete_vault, create,
  delete,
}
use sakumock.SecretManager.Store.Writes.{
  get-vault_or_new, secret_or_new-Matches, write-Matches, absent-Matches,
}
use sakumock.Prelude.{
  ◌≡◌, refl, sym, ap, ◌∙◌, String, List, [], ◌∷◌, none, some, true, false, str_eq, string_eq,
  nat_eq, is_some, Bool-cases, Option-cases, inl, inr,
}

pub create-Implements :
    (s : MemoryStore) (t : Service) (vault_id name value : String)
    → Implements s t
    → Implements (serve s (create vault_id name value)) (step t (create vault_id name value))
unfolding serve step Store.create
create-Implements s t vault_id name value same =
    let vault = vault_or_new (Dict.get s.vaults vault_id) in
    let sec = add_version (secret_or_new name (Dict.get vault name)) value in
    let old : Matches (Dict.get vault name) (t.history vault_id name) =
      rw (get-vault_or_new (Dict.get s.vaults vault_id) name) (same.same_secrets vault_id name) in
    record {
      same_ids = same.same_ids;
      same_vaults = same.same_vaults;
      same_secrets =
          write-Matches s t vault_id name (Dict.put vault name sec) (some sec)
            (λ v n. value ∷ t.history v n) same
            (secret_or_new-Matches name value (Dict.get vault name) (t.history vault_id name) old)
            (λ n.
              Dict.get-put vault name n sec
              ∙ rw (get-vault_or_new (Dict.get s.vaults vault_id) n) refl);
    }

pub delete-Implements :
    (s : MemoryStore) (t : Service) (vault_id name : String)
    → Implements s t
    → Implements (serve s (delete vault_id name)) (step t (delete vault_id name))
unfolding serve step Store.delete
delete-Implements s t vault_id name same = elim (Option-cases (Dict.get s.vaults vault_id)) [
  | inl no_vault ↦
      rw (serve, Store.delete, no_vault)
        (record {
          same_ids = same.same_ids;
          same_vaults = same.same_vaults;
          same_secrets = absent-Matches s t vault_id name same (rw no_vault refl);
        })
  | inr (vault, there) ↦ elim (Option-cases (Dict.get vault name)) [
    | inl no_secret ↦
        rw (serve, Store.delete, there, no_secret)
          (record {
            same_ids = same.same_ids;
            same_vaults = same.same_vaults;
            same_secrets = absent-Matches s t vault_id name same (rw (there, no_secret) refl);
          })
    | inr (sec, found) ↦
        rw (serve, Store.delete, there, found)
          (record {
            same_ids = same.same_ids;
            same_vaults = same.same_vaults;
            same_secrets =
                write-Matches s t vault_id name (Dict.remove vault name) none (λ v n. []) same refl
                  (λ n. Dict.get-remove vault name n ∙ rw there refl);
          })
  ]
]

pub delete_vault-Implements :
    (s : MemoryStore) (t : Service) (id : String)
    → Implements s t
    → Implements (serve s (delete_vault id)) (step t (delete_vault id))
unfolding serve step Store.delete_vault
delete_vault-Implements s t id same = elim (Option-cases (Dict.get s.vault_records id)) [
  | inl missing ↦
      let unknown : t.registered id ≡ false = rw missing at (sym (same.same_vaults id)) in
      rw (serve, step, Store.delete_vault, missing, unknown) same
  | inr (v, found) ↦
      let known : t.registered id ≡ true = rw found at (sym (same.same_vaults id)) in
      rw (serve, step, Store.delete_vault, found, known)
        (record {
          same_ids = same.same_ids;
          same_vaults = λ i. elim (Bool-cases (str_eq id i)) [
            | inl here ↦ ap is_some (Dict.get-remove s.vault_records id i) ∙ rw here refl
            | inr other ↦
                ap is_some (Dict.get-remove s.vault_records id i) ∙ rw other (same.same_vaults i)
          ];
          same_secrets = λ i n. elim (Bool-cases (str_eq id i)) [
            | inl here ↦
                let gone : Dict.get (Dict.remove s.vaults id) i ≡ none =
                  Dict.get-remove s.vaults id i ∙ rw here refl in
                rw (here, gone) refl
            | inr other ↦
                let kept : Dict.get (Dict.remove s.vaults id) i ≡ Dict.get s.vaults i =
                  Dict.get-remove s.vaults id i ∙ rw other refl in
                rw (other, kept) (same.same_secrets i n)
          ];
        })
]

pub update_vault-Implements :
    (s : MemoryStore) (t : Service) (id name description : String) (tags : List String) (now : Time)
    → Implements s t
    → Implements (serve s (update_vault id name description tags now)) t
unfolding serve Store.update_vault
update_vault-Implements s t id name description tags now same =
    elim (Option-cases (Dict.get s.vault_records id)) [
      | inl missing ↦ rw (serve, Store.update_vault, missing) same
      | inr (v, found) ↦
          rw (serve, Store.update_vault, found)
            (record {
              same_ids = same.same_ids;
              same_vaults = λ i. elim (Bool-cases (str_eq id i)) [
                | inl here ↦
                    let path : id ≡ i = (string_eq.beq_iff id i).0 here in
                    let known : is_some (Dict.get s.vault_records i) ≡ true =
                      subst (λ j. is_some (Dict.get s.vault_records j) ≡ true) path
                        (rw found refl) in
                    ap is_some (Dict.get-put s.vault_records id i _)
                    ∙ rw here (sym known ∙ same.same_vaults i)
                | inr other ↦
                    ap is_some (Dict.get-put s.vault_records id i _) ∙ rw other (same.same_vaults i)
              ];
              same_secrets = same.same_secrets;
            })
    ]

pub create_vault-Implements :
    (s : MemoryStore) (t : Service) (name key description : String) (tags : List String)
    (now : Time)
    → Implements s t
    → Implements
        (serve s (create_vault name key description tags now))
        (step t (create_vault name key description tags now))
unfolding serve step Store.create_vault
create_vault-Implements s t name key description tags now same =
    let id_path : (IdGenerator.next_id s.ids).1 ≡ (IdGenerator.next_id t.ids).1 =
      ap (λ g. (IdGenerator.next_id g).1) same.same_ids in
    record {
      same_ids = ap (λ g. (IdGenerator.next_id g).0) same.same_ids;
      same_vaults = λ i.
          ap is_some (Dict.get-put s.vault_records _ i _)
          ∙ rw (sym id_path) (elim (Bool-cases (str_eq (IdGenerator.next_id s.ids).1 i)) [
            | inl here ↦ rw here refl
            | inr other ↦ rw other (same.same_vaults i)
          ]);
      same_secrets = same.same_secrets;
    }
