-- ===== src/SecretManager/Store/Histories.antt =====
-- What MemoryStore of secretmanager/store_memory.go promises: a history of values per secret, of which
-- the last 50 can be read.
use sakumock.Dict
use sakumock.Dict.{Dict}
use sakumock.SecretManager.Store.{Secret, max_secret_versions, add_version}
use sakumock.Prelude.{
  ℕ, suc, ◌+◌, ◌-◌, ◌≤◌, ◌≡◌, refl, ap, String, List, [], ◌∷◌, Option, none, some, leb, ◌==◌,
  length, string_eq, nat_eq, if◌then◌else◌, arith,
}

-- The value of a version, in the history whose first value is the newest
abbrev pub value_at : List String → ℕ → Option String
value_at [] v = none
value_at (x ∷ older) v =
    let rest = value_at older v in if v == suc (length older) then some x else rest

-- ... as long as fewer than 50 newer ones have come.
abbrev pub retained : List String → ℕ → Option String
retained values v =
    if leb (v + max_secret_versions) (length values) then none else value_at values v

-- The secret holds the retained values of the history.
abbrev pub Represents : Secret → List String → Type 0
Represents sec values =
    (sec.latest ≡ length values) × ((v : ℕ) → Dict.get sec.versions v ≡ retained values v)

value_at-none : (values : List String) (v : ℕ) → suc (length values) ≤ v → value_at values v ≡ none
value_at-none [] v h = refl
value_at-none (x ∷ older) v h = ground (arith, value_at-none older v)

value_at-zero : (values : List String) → value_at values 0 ≡ none
value_at-zero [] = refl
value_at-zero (x ∷ older) = ground (arith, value_at-zero older)

pub add_version-Represents :
    (sec : Secret) (values : List String) (x : String)
    → Represents sec values
    → Represents (add_version sec x) (x ∷ values)
unfolding add_version
add_version-Represents sec values x (latest, holds) = (
  ap suc latest,
  λ v.
      let put = Dict.get-put sec.versions (suc sec.latest) v x in
      let removed =
        Dict.get-remove (Dict.put sec.versions (suc sec.latest) x)
          (suc sec.latest - max_secret_versions) v in
      ground (arith, latest, holds v, put, removed),
)
