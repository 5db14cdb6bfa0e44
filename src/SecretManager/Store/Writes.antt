-- ===== src/SecretManager/Store/Writes.antt =====
-- A write of one secret in MemoryStore of secretmanager/store_memory.go, against the histories.
use mathlib.Core.Path.{subst, subst₂}
use sakumock.Dict
use sakumock.Dict.{Dict}
use sakumock.SecretManager.Store.{MemoryStore, Secret, add_version, secret_or_new, vault_or_new}
use sakumock.SecretManager.Store.Histories.{Represents, add_version-Represents}
use sakumock.SecretManager.Store.Refinement.{Service, secret_in, Matches, Implements}
use sakumock.Prelude.{
  ◌≡◌, refl, sym, ap, ◌∙◌, String, List, [], ◌∷◌, Option, none, some, ◌&&◌, str_eq, string_eq,
  nat_eq, if◌then◌else◌, arith, Bool-cases, inl, inr,
}

pub get-vault_or_new :
    (o : Option (Dict String Secret)) (n : String) → Dict.get (vault_or_new o) n ≡ secret_in o n
get-vault_or_new none n = Dict.get-empty n
get-vault_or_new (some vault) n = refl

-- A secret with one more value
pub secret_or_new-Matches :
    (name value : String) (o : Option Secret) (values : List String)
    → Matches o values
    → Matches (some (add_version (secret_or_new name o) value)) (value ∷ values)
secret_or_new-Matches name value none values h =
    let fresh : Represents (secret_or_new name none) [] =
      (refl, λ v. Dict.get-empty v ∙ ground arith) in
    subst (λ l. Matches (some (add_version (secret_or_new name none) value)) (value ∷ l)) (sym h)
      (add_version-Represents (secret_or_new name none) [] value fresh, omega arith)
secret_or_new-Matches name value (some sec) values (same, _) =
    (add_version-Represents sec values value same, omega arith)

-- A write of one vault in which one secret has changed
pub write-Matches :
    (s : MemoryStore) (t : Service) (vault_id name : String) (vault' : Dict String Secret)
    (o : Option Secret) (values : String → String → List String)
    → Implements s t
    → Matches o (values vault_id name)
    → ((n : String)
        → Dict.get vault' n
          ≡ (if str_eq name n then o else secret_in (Dict.get s.vaults vault_id) n))
    → (v n : String)
    → Matches
        (secret_in (Dict.get (Dict.put s.vaults vault_id vault') v) n)
        (if str_eq vault_id v && str_eq name n then values v n else t.history v n)
write-Matches s t vault_id name vault' o values same now written v n =
    elim (Bool-cases (str_eq vault_id v)) [
      | inr other ↦
          let kept : Dict.get (Dict.put s.vaults vault_id vault') v ≡ Dict.get s.vaults v =
            Dict.get-put s.vaults vault_id v vault' ∙ rw other refl in
          rw (other, kept) (same.same_secrets v n)
      | inl vault_same ↦
          let path : vault_id ≡ v = (string_eq.beq_iff vault_id v).0 vault_same in
          let there : Dict.get (Dict.put s.vaults vault_id vault') v ≡ some vault' =
            Dict.get-put s.vaults vault_id v vault' ∙ rw vault_same refl in
          elim (Bool-cases (str_eq name n)) [
            | inr other ↦
                let kept : Dict.get vault' n ≡ secret_in (Dict.get s.vaults v) n =
                  written n ∙ rw other (ap (λ i. secret_in (Dict.get s.vaults i) n) path) in
                rw (vault_same, other, there, kept) (same.same_secrets v n)
            | inl name_same ↦
                let path' : name ≡ n = (string_eq.beq_iff name n).0 name_same in
                let here : Dict.get vault' n ≡ o = written n ∙ rw name_same refl in
                rw (vault_same, name_same, there, here)
                  (subst₂ (λ i j. Matches o (values i j)) path path' now)
          ]
    ]

-- A deletion of a secret that is not there
pub absent-Matches :
    (s : MemoryStore) (t : Service) (vault_id name : String)
    → Implements s t
    → secret_in (Dict.get s.vaults vault_id) name ≡ none
    → (v n : String)
    → Matches
        (secret_in (Dict.get s.vaults v) n)
        (if str_eq vault_id v && str_eq name n then [] else t.history v n)
absent-Matches s t vault_id name same missing v n = elim (Bool-cases (str_eq vault_id v)) [
  | inr other ↦ rw other (same.same_secrets v n)
  | inl vault_same ↦ elim (Bool-cases (str_eq name n)) [
    | inr other ↦ rw (vault_same, other) (same.same_secrets v n)
    | inl name_same ↦
        let path : vault_id ≡ v = (string_eq.beq_iff vault_id v).0 vault_same in
        let path' : name ≡ n = (string_eq.beq_iff name n).0 name_same in
        rw (vault_same, name_same)
          (subst₂ (λ i j. Matches (secret_in (Dict.get s.vaults i) j) []) path path'
            (rw missing refl))
  ]
]
