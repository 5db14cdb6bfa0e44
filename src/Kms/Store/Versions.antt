-- ===== src/Kms/Store/Versions.antt =====
-- Rotate and Preset of kms/store_memory.go where they succeed.
use mathlib.Core.Path.{subst}
use sakumock.Core.IdGenerator
use sakumock.Core.IdGenerator.{IdGenerator}
use sakumock.Dict
use sakumock.Dict.{Dict}
use sakumock.Kms.Crypto.{Bytes, Crypto}
use sakumock.Kms.Store.{
  MemoryStore, KeyRecord, Time, rotate_key_material, rotate, preset, preset_record,
  generate_key_material,
}
use sakumock.Kms.Store.Chain.{
  Chained, start-IsChain, rotate_key_material-Extends, preset_loop-Extends,
}
use sakumock.Prelude.{
  ℕ, zero, suc, ◌+◌, ◌≤◌, ◌≡◌, refl, sym, ◌∙◌, String, none, some, pos, true, arith, string_eq,
  nat_eq, str_eq,
}

module _ (c : Crypto) where
  abbrev pub OthersKept : MemoryStore → MemoryStore → String → Type 0
  OthersKept s s' id =
      (j : String) → ¬ (id ≡ j) → Dict.get s'.key_material j ≡ Dict.get s.key_material j

  -- The record that Rotate writes
  abbrev pub rotated_record : KeyRecord → Time → KeyRecord
  rotated_record k now = record k { latest_version = k.latest_version + 1; modified_at = now }

  pub rotate_active :
      (s : MemoryStore) (id : String) (k : KeyRecord) (first : Bytes) (now : Time)
      → Dict.get s.keys id ≡ some k
      → str_eq k.status "active" ≡ true
      → 1 ≤ k.latest_version
      → Chained c s id first k.latest_version
      → (s' : MemoryStore) × (rotate c s id now ≡ some (s', (some (rotated_record k now), none)))
        × (s'.keys ≡ Dict.put s.keys id (rotated_record k now))
        × (s'.ids ≡ s.ids)
        × Chained c s' id first (k.latest_version + 1)
        × OthersKept s s' id
  unfolding rotate
  rotate_active s id k first now found active first_up chained =
      let written : MemoryStore = record s { keys = Dict.put s.keys id (rotated_record k now) } in
      let (n, is) : (n : ℕ) × (k.latest_version ≡ suc n) = positive k.latest_version first_up in
      let plus : k.latest_version + 1 ≡ suc (suc n) = omega (arith, is) in
      let (s', one, (keys, ids, chain, others)) =
        rotate_key_material-Extends c written id first n
          (subst (Chained c written id first) is chained) in
      let step : rotate_key_material c written id (k.latest_version + 1) ≡ some s' =
        subst (λ v. rotate_key_material c written id v ≡ some s') (sym plus) one in
      (
        s',
        rw (rotate, found, active, step) refl,
        keys,
        ids,
        subst (Chained c s' id first) (sym plus) chain,
        others,
      )
    where
      positive : (v : ℕ) → 1 ≤ v → (n : ℕ) × (v ≡ suc n)
      positive zero h = absurd (omega (arith, h))
      positive (suc n) h = (n, refl)

  pub preset_reserved :
      (s : MemoryStore) (id : String) (material : Bytes) (n : ℕ) (now : Time)
      → (IdGenerator.reserve s.ids id "kms").1 ≡ none
      → (s' : MemoryStore) × (preset c s id material (pos (suc n)) now ≡ some (s', none))
        × (s'.keys ≡ Dict.put s.keys id (preset_record c id (suc n) now))
        × (s'.ids ≡ (IdGenerator.reserve s.ids id "kms").0)
        × Chained c s' id material (suc n)
        × OthersKept s s' id
  unfolding preset
  preset_reserved s id material n now free =
      let m = Dict.put Dict.empty 1 material in
      let registered : MemoryStore =
        generate_key_material
          (record s {
            ids = (IdGenerator.reserve s.ids id "kms").0;
            keys = Dict.put s.keys id (preset_record c id (suc n) now);
          })
          id material in
      let (s', all, (keys, ids, chain, others)) =
        preset_loop-Extends c n registered id material 0
          (m, Dict.get-put_self s.key_material id m, start-IsChain c material) in
      (
        s',
        rw (preset, free, all) refl,
        keys,
        ids,
        subst (Chained c s' id material) (omega arith) chain,
        λ j ne. others j ne ∙ Dict.get-put_ne s.key_material id j m ne,
      )
