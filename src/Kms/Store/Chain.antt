-- ===== src/Kms/Store/Chain.antt =====
-- The chain of a key's material: what rotateKeyMaterial of kms/store_memory.go and nextKeyMaterial
-- of kms/preset.go make of the first version.
use mathlib.Core.Path.{subst}
use sakumock.Dict
use sakumock.Dict.{Dict, dict_laws}
use sakumock.Kms.Crypto.{Bytes, Crypto}
use sakumock.Kms.Store.{MemoryStore, Materials, material_at, rotate_key_material, preset_loop}
use sakumock.Prelude.{
  ℕ, zero, suc, ◌+◌, ◌-◌, ◌≡◌, refl, Bool-cases, inl, inr, ◌==◌, ap, ◌∙◌, String, none, some, leb,
  ◌&&◌, arith, string_eq, nat_eq, if◌then◌else◌,
}

module _ (c : Crypto) where
  -- The material of a version, by the chain from version 1
  abbrev pub derived : Bytes → ℕ → Bytes
  derived first zero = first
  derived first (suc zero) = first
  derived first (suc (suc n)) = c.sha256 (derived first (suc n))

  -- The materials are those of the versions from 1 to `latest`, and no other.
  abbrev pub IsChain : Bytes → ℕ → Materials → Type 0
  IsChain first latest m =
      (v : ℕ) → Dict.get m v ≡ (if leb 1 v && leb v latest then some (derived first v) else none)

  -- The store has a key's materials.
  abbrev pub Chained : MemoryStore → String → Bytes → ℕ → Type 0
  Chained s id first latest =
      (m : Materials) × (Dict.get s.key_material id ≡ some m) × IsChain first latest m

  pub start-IsChain : (first : Bytes) → IsChain first 1 (Dict.put Dict.empty 1 first)
  start-IsChain first zero = Dict.get-put Dict.empty 1 zero first ∙ Dict.get-empty zero
  start-IsChain first (suc zero) = Dict.get-put_self Dict.empty 1 first
  start-IsChain first (suc (suc n)) =
      Dict.get-put_ne Dict.empty 1 (suc (suc n)) first (ground arith)
      ∙ Dict.get-empty (suc (suc n))
      ∙ ground arith

  pub next-IsChain :
      (first : Bytes) (n : ℕ) (m : Materials)
      → IsChain first (suc n) m
      → IsChain first (suc (suc n)) (Dict.put m (suc (suc n)) (c.sha256 (material_at m (suc n))))
  next-IsChain first n m h v = elim (Bool-cases (v == suc (suc n))) [
    | inl same ↦
        let last = suc (suc n) in
        let at_last : v ≡ last = ground (arith, same) in
        let before : Dict.get m (suc n) ≡ some (derived first (suc n)) = h (suc n) ∙ ground arith in
        let derivation : material_at m (suc n) ≡ derived first (suc n) =
          rw (material_at, before) refl in
        rw at_last (
          Dict.get-put_self m last (c.sha256 (material_at m (suc n)))
          ∙ ap (λ b. some (c.sha256 b)) derivation
          ∙ ground arith)
    | inr other ↦
        Dict.get-put_ne m (suc (suc n)) v (c.sha256 (material_at m (suc n))) (ground (arith, other))
        ∙ h v
        ∙ ground (arith, other)
  ]

  -- Another store that differs in the materials of one key
  abbrev pub Extends : MemoryStore → MemoryStore → String → Bytes → ℕ → Type 0
  Extends s s' id first latest =
      (s'.keys ≡ s.keys)
      × (s'.ids ≡ s.ids)
      × Chained s' id first latest
      × ((j : String) → ¬ (id ≡ j) → Dict.get s'.key_material j ≡ Dict.get s.key_material j)

  pub rotate_key_material-Extends :
      (s : MemoryStore) (id : String) (first : Bytes) (n : ℕ)
      → Chained s id first (suc n)
      → (s' : MemoryStore) × (rotate_key_material c s id (suc (suc n)) ≡ some s')
        × Extends s s' id first (suc (suc n))
  unfolding rotate_key_material
  rotate_key_material-Extends s id first n (m, here, chain) =
      let minus : suc (suc n) - 1 ≡ suc n = omega arith in
      let m' = Dict.put m (suc (suc n)) (c.sha256 (material_at m (suc n))) in
      (
        record s { key_material = Dict.put s.key_material id m' },
        rw (rotate_key_material, here, minus) refl,
        (
          refl,
          refl,
          (m', Dict.get-put_self s.key_material id m', next-IsChain first n m chain),
          λ j ne. Dict.get-put_ne s.key_material id j m' ne,
        ),
      )

  pub preset_loop-Extends :
      (count : ℕ) (s : MemoryStore) (id : String) (first : Bytes) (n : ℕ)
      → Chained s id first (suc n)
      → (s' : MemoryStore) × (preset_loop c s id (suc (suc n)) count ≡ some s')
        × Extends s s' id first (suc n + count)
  unfolding preset_loop
  preset_loop-Extends zero s id first n h =
      (s, refl, (refl, refl, subst (Chained s id first) (omega arith) h, λ j ne. refl))
  preset_loop-Extends (suc count) s id first n h =
      let plus : suc (suc n) + 1 ≡ suc (suc (suc n)) = omega arith in
      let (s₁, one, (keys₁, ids₁, chain₁, others₁)) = rotate_key_material-Extends s id first n h in
      let (s₂, rest, (keys₂, ids₂, chain₂, others₂)) =
        preset_loop-Extends count s₁ id first (suc n) chain₁ in
      (
        s₂,
        rw (preset_loop, one, plus) rest,
        (
          keys₂ ∙ keys₁,
          ids₂ ∙ ids₁,
          subst (Chained s₂ id first) (omega arith) chain₂,
          λ j ne. others₂ j ne ∙ others₁ j ne,
        ),
      )
