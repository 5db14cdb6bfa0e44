-- ===== src/Kms/Store/WellFormed.antt =====
-- Every request to MemoryStore of kms/store_memory.go keeps each key's versions of material complete,
-- so none runs into the panic of rotateKeyMaterial.
use mathlib.Core.Path.{subst, subst₂}
use sakumock.Core.IdGenerator
use sakumock.Core.IdGenerator.{IdGenerator}
use sakumock.Dict
use sakumock.Dict.{Dict}
use sakumock.Kms.Crypto.{Bytes, Crypto}
use sakumock.Kms.Store
use sakumock.Kms.Store.{MemoryStore, KeyRecord, KeyError, Time, preset_record}
use sakumock.Kms.Store.Chain.{Chained, start-IsChain}
use sakumock.Kms.Store.Versions.{rotate_active, rotated_record, preset_reserved}
use sakumock.Kms.Store.Requests.{
  Request, preset, create, update, rotate, change_status, schedule_destruction, serve, IsWell,
  IsWellFormed, Advances, Spares,
}
use sakumock.Kms.Store.Advances.{stay-Advances, write-Advances, own-Advances, set-Advances}
use sakumock.Prelude.{
  zero, suc, ◌+◌, ◌≤◌, ◌≡◌, refl, sym, ap, ◌∙◌, String, List, Option, none, some, ℤ, pos, negsuc,
  arith, true, string_eq, nat_eq, Option-cases, Bool-cases, inl, inr, str_eq,
}

module _ (c : Crypto) where
  -- A write of one key that leaves the other keys' materials
  pub write-IsWellFormed :
      (s s' : MemoryStore) (id : String) (k : KeyRecord)
      → IsWellFormed c s
      → s'.keys ≡ Dict.put s.keys id k
      → IsWell c s' id k
      → ((j : String) → ¬ (id ≡ j) → Dict.get s'.key_material j ≡ Dict.get s.key_material j)
      → IsWellFormed c s'
  write-IsWellFormed s s' id k well keys this others j x found =
      elim (Dict.get-put_cases s.keys id j k x (ap (λ d. Dict.get d j) (sym keys) ∙ found)) [
        | inl (same, is) ↦ subst₂ (IsWell c s') same (sym is) this
        | inr (ne, before) ↦
            let (own, first_up, (first, (m, here, chain))) = well j x before in
            (own, first_up, (first, (m, others j ne ∙ here, chain)))
      ]

  -- A change of one key's other fields
  pub set-IsWellFormed :
      (s : MemoryStore) (id : String) (k k' : KeyRecord)
      → IsWellFormed c s
      → Dict.get s.keys id ≡ some k
      → k'.id ≡ k.id
      → k'.latest_version ≡ k.latest_version
      → IsWellFormed c (record s { keys = Dict.put s.keys id k' })
  set-IsWellFormed s id k k' well found same_id same_version =
      let (own, first_up, (first, chained)) = well id k found in
      write-IsWellFormed s (record s { keys = Dict.put s.keys id k' }) id k' well refl
        (
          same_id ∙ own,
          rw same_version first_up,
          (first, subst (Chained c s id first) (sym same_version) chained),
        )
        (λ j ne. refl)

  pub new_memory_store-IsWellFormed :
      (ids : IdGenerator) → IsWellFormed c (Store.new_memory_store ids)
  unfolding Store.new_memory_store
  new_memory_store-IsWellFormed ids id k found =
      absurd (cc (found, Dict.get-empty {V = KeyRecord} id))

  create-IsWellFormed :
      (s : MemoryStore) (name description origin : String) (tags : Option (List String))
      (key : Bytes) (now : Time)
      → IsWellFormed c s
      → IsWellFormed c (Store.create s name description origin tags key now).0
  unfolding Store.create
  create-IsWellFormed s name description origin tags key now well =
      let id = (IdGenerator.next_id s.ids).1 in
      let made = Store.create s name description origin tags key now in
      let m = Dict.put Dict.empty 1 key in
      write-IsWellFormed s made.0 id made.1 well refl
        (refl, omega arith, (key, (m, Dict.get-put_self s.key_material id m, start-IsChain c key)))
        (λ j ne. Dict.get-put_ne s.key_material id j m ne)

  -- A request that returns, with a well-formed store in which the keys that it spares have advanced
  abbrev pub Succeeds : MemoryStore → Request → Type 0
  Succeeds s r =
      (s' : MemoryStore) × (serve c s r ≡ some s')
      × (IsWellFormed c s' × ((id : String) → Spares c id s r → Advances c s s' id))

  rotate-own :
      (s s' : MemoryStore) (id : String) (k : KeyRecord) (now : Time)
      → Dict.get s.keys id ≡ some k
      → str_eq k.status "active" ≡ true
      → 1 ≤ k.latest_version
      → Store.rotate c s id now ≡ some (s', (some (rotated_record c k now), none))
      → s'.keys ≡ Dict.put s.keys id (rotated_record c k now)
      → Advances c s s' id
  rotate-own s s' id k now found active first_up done keys k₀ first before chained =
      let is : k₀ ≡ k = cc (found, before) in
      let version : k₀.latest_version ≡ k.latest_version = ap (λ r. r.latest_version) is in
      let (again, redone, _, _, chain, _) =
        rotate_active c s id k first now found active first_up
          (subst (Chained c s id first) version chained) in
      let same : again ≡ s' = cc (done, redone) in
      (
        rotated_record c k now,
        ap (λ d. Dict.get d id) keys ∙ Dict.get-put_self s.keys id (rotated_record c k now),
        omega (arith, version),
        subst (λ t. Chained c t id first (k.latest_version + 1)) same chain,
      )

  rotate-Succeeds :
      (s : MemoryStore) (id : String) (now : Time) → IsWellFormed c s → Succeeds s (rotate id now)
  unfolding serve Store.rotate
  rotate-Succeeds s id now well = elim (Option-cases (Dict.get s.keys id)) [
    | inl missing ↦ (s, rw (Store.rotate, missing) refl, (well, λ j _. stay-Advances c s j))
    | inr (k, found) ↦ elim (Bool-cases (str_eq k.status "active")) [
      | inr inactive ↦
          (s, rw (Store.rotate, found, inactive) refl, (well, λ j _. stay-Advances c s j))
      | inl active ↦
          let (own, first_up, (first, chained)) = well id k found in
          let (s', done, keys, ids, chain, others) =
            rotate_active c s id k first now found active first_up chained in
          let up : 1 ≤ k.latest_version + 1 = omega arith in
          (
            s',
            rw (serve, done) refl,
            (
              write-IsWellFormed s s' id (rotated_record c k now) well keys
                  (own, up, (first, chain)) others,
              λ j _.
                  own-Advances c s s' id j (rotated_record c k now) keys others
                    (rotate-own s s' id k now found active first_up done keys),
            ),
          )
    ]
  ]

  preset-Succeeds :
      (s : MemoryStore) (id : String) (material : Bytes) (version : ℤ) (now : Time)
      → IsWellFormed c s
      → Succeeds s (preset id material version now)
  unfolding serve Store.preset
  preset-Succeeds s id material (negsuc n) now well = (s, refl, (well, λ j _. stay-Advances c s j))
  preset-Succeeds s id material (pos zero) now well = (s, refl, (well, λ j _. stay-Advances c s j))
  preset-Succeeds s id material (pos (suc n)) now well =
      elim (Option-cases (IdGenerator.reserve s.ids id "kms").1) [
        | inr (e, refused) ↦
            let s' : MemoryStore = record s { ids = (IdGenerator.reserve s.ids id "kms").0 } in
            (s', rw (Store.preset, refused) refl, (well, λ j _. stay-Advances c s j))
        | inl free ↦
            let (s', done, keys, ids, chain, others) = preset_reserved c s id material n now free in
            let k = preset_record c id (suc n) now in
            let up : 1 ≤ suc n = omega arith in
            (
              s',
              rw (serve, done) refl,
              (
                write-IsWellFormed s s' id k well keys (refl, up, (material, chain)) others,
                λ j ne. write-Advances c s s' id j k keys others ne,
              ),
            )
      ]

  set-Succeeds :
      (s : MemoryStore) (id : String) (k k' : KeyRecord)
      → IsWellFormed c s
      → Dict.get s.keys id ≡ some k
      → k'.id ≡ k.id
      → k'.latest_version ≡ k.latest_version
      → IsWellFormed c (record s { keys = Dict.put s.keys id k' })
        × ((j : String) → Unit {0} → Advances c s (record s { keys = Dict.put s.keys id k' }) j)
  set-Succeeds s id k k' well found same_id same_version = (
    set-IsWellFormed s id k k' well found same_id same_version,
    λ j _. set-Advances c s id j k k' found same_version,
  )

  -- Every request that changes a well-formed store, preset and rotation included, returns without a
  -- panic and leaves a well-formed store: each key has its own ID and exactly the versions from 1 to
  -- its latest, by the chain of SHA-256 from version 1. Each key that the request does not make anew
  -- is still there, with its chain, at its version or a later one.
  pub serve-IsWellFormed : (s : MemoryStore) (r : Request) → IsWellFormed c s → Succeeds s r
  unfolding serve Store.update Store.change_status Store.schedule_destruction Store.create
  serve-IsWellFormed s (preset id material version now) well =
      preset-Succeeds s id material version now well
  serve-IsWellFormed s (create name description origin tags key now) well =
      let id = (IdGenerator.next_id s.ids).1 in
      let (s', k) = Store.create s name description origin tags key now in
      let m = Dict.put Dict.empty 1 key in
      (
        s',
        refl,
        (
          create-IsWellFormed s name description origin tags key now well,
          λ j ne.
              write-Advances c s s' id j k refl
                (λ i other. Dict.get-put_ne s.key_material id i m other) ne,
        ),
      )
  serve-IsWellFormed s (rotate id now) well = rotate-Succeeds s id now well
  serve-IsWellFormed s (update id name description tags now) well = (
    _,
    refl,
    elim (Option-cases (Dict.get s.keys id)) [
      | inl missing ↦ rw (Store.update, missing) (well, λ j _. stay-Advances c s j)
      | inr (k, found) ↦ rw (Store.update, found) (set-Succeeds s id k _ well found refl refl)
    ],
  )
  serve-IsWellFormed s (change_status id status now) well = (
    _,
    refl,
    elim (Option-cases (Dict.get s.keys id)) [
      | inl missing ↦ rw (Store.change_status, missing) (well, λ j _. stay-Advances c s j)
      | inr (k, found) ↦
          rw (Store.change_status, found) (set-Succeeds s id k _ well found refl refl)
    ],
  )
  serve-IsWellFormed s (schedule_destruction id after now) well = (
    _,
    refl,
    elim (Option-cases (Dict.get s.keys id)) [
      | inl missing ↦ rw (Store.schedule_destruction, missing) (well, λ j _. stay-Advances c s j)
      | inr (k, found) ↦
          rw (Store.schedule_destruction, found) (set-Succeeds s id k _ well found refl refl)
    ],
  )
