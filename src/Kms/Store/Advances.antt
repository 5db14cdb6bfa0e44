-- ===== src/Kms/Store/Advances.antt =====
-- A request to MemoryStore of kms/store_memory.go advances each key that it does not make anew.
use mathlib.Core.Path.{subst}
use sakumock.Dict
use sakumock.Dict.{Dict}
use sakumock.Kms.Crypto.{Crypto}
use sakumock.Kms.Store.{MemoryStore, KeyRecord}
use sakumock.Kms.Store.Chain.{Chained}
use sakumock.Kms.Store.Versions.{OthersKept}
use sakumock.Kms.Store.Requests.{Advances}
use sakumock.Prelude.{
  ◌≡◌, refl, sym, ap, ◌∙◌, String, some, arith, string_eq, nat_eq, Bool-cases, inl, inr,
}

module _ (c : Crypto) where
  pub stay-Advances : (s : MemoryStore) (id : String) → Advances c s s id
  stay-Advances s id k first found chained = (k, found, omega arith, chained)

  -- A write of another key
  pub write-Advances :
      (s s' : MemoryStore) (j id : String) (k : KeyRecord)
      → s'.keys ≡ Dict.put s.keys j k
      → OthersKept c s s' j
      → ¬ (j ≡ id)
      → Advances c s s' id
  write-Advances s s' j id k keys others ne k₀ first found (m, here, chain) = (
    k₀,
    ap (λ d. Dict.get d id) keys ∙ Dict.get-put_ne s.keys j id k ne ∙ found,
    omega arith,
    (m, others id ne ∙ here, chain),
  )

  -- A write of a key, which advances that key
  pub own-Advances :
      (s s' : MemoryStore) (j id : String) (k : KeyRecord)
      → s'.keys ≡ Dict.put s.keys j k
      → OthersKept c s s' j
      → Advances c s s' j
      → Advances c s s' id
  own-Advances s s' j id k keys others own = elim (Bool-cases (string_eq.beq j id)) [
    | inl same ↦ subst (Advances c s s') ((string_eq.beq_iff j id).0 same) own
    | inr other ↦
        write-Advances s s' j id k keys others (λ eq. cc ((string_eq.beq_iff j id).1 eq, other))
  ]

  pub set-Advances :
      (s : MemoryStore) (j id : String) (k k' : KeyRecord)
      → Dict.get s.keys j ≡ some k
      → k'.latest_version ≡ k.latest_version
      → Advances c s (record s { keys = Dict.put s.keys j k' }) id
  set-Advances s j id k k' found same =
      let s' : MemoryStore = record s { keys = Dict.put s.keys j k' } in
      own-Advances s s' j id k' refl (λ i ne. refl)
        (λ k₀ first before chained.
          let version : k₀.latest_version ≡ k'.latest_version =
            (let is : k₀ ≡ k = cc (before, found) in ap (λ r. r.latest_version) is ∙ sym same) in
          (
            k',
            Dict.get-put_self s.keys j k',
            omega (arith, version),
            subst (Chained c s j first) version chained,
          ))
