-- ===== src/SimpleMq/Store/Control/Lifecycle.antt =====
-- A queue from its creation to its deletion, as the control plane shows it.
use sakumock.Core.IdGenerator
use sakumock.Dict
use sakumock.Dict.{get-put_self, get-put_ne, get-remove_self, get-remove_ne}
use sakumock.SimpleMq.Queue.{Time}
use sakumock.SimpleMq.Store.{StoredQueue, MemoryStore}
use sakumock.SimpleMq.Store.Control.{
  QueueError, queue_not_found, queue_conflict, create_queue, delete_queue_by_id, get_queue_by_id,
  get_queue_by_name, new_resource, found,
}
use sakumock.SimpleMq.Store.Control.Consistency.{registry-apply_settings}
use mathlib.Core.Path.{subst}
use sakumock.Prelude.{
  ℕ, ◌≡◌, ◌≢◌, ◌↔◌, sym, ap, ◌∙◌, String, List, none, some, Result, ok, err, string_eq,
  Option-cases, inl, inr, arith, is_some, true,
}

pub not_ok :
    {q : StoredQueue} → ¬ (◌≡◌ {A = Result QueueError StoredQueue} (err queue_conflict) (ok q))
not_ok e = cc

by_id_found :
    (s : MemoryStore) (id : String) (q : StoredQueue)
    → Dict.get s.queue_resources id ≡ some q
    → get_queue_by_id s id ≡ ok q
unfolding get_queue_by_id
by_id_found s id q there = ap found there

by_name_found :
    (s : MemoryStore) (name id : String) (q : StoredQueue)
    → Dict.get s.queue_by_name name ≡ some id
    → Dict.get s.queue_resources id ≡ some q
    → get_queue_by_name s name ≡ ok q
unfolding get_queue_by_name
by_name_found s name id q named there = rw (get_queue_by_name, named) (ap found there)

by_name_missing :
    (s : MemoryStore) (name : String)
    → Dict.get s.queue_by_name name ≡ none
    → get_queue_by_name s name ≡ err queue_not_found
unfolding get_queue_by_name
by_name_missing s name missing = rw (get_queue_by_name, missing)

module _ (s : MemoryStore) (name description : String) (tags : List String) (vt exp : ℕ)
    (now : Time) where
  -- CreateQueue fails exactly when the name is taken, with ErrQueueConflict, and then changes
  -- nothing.
  pub create_queue-conflict :
      is_some (Dict.get s.queue_by_name name) ≡ true
      ↔ (create_queue s name description tags vt exp now ≡ (s, err queue_conflict))
  unfolding create_queue
  create_queue-conflict = (λ taken. ground arith, λ failed. ground arith)

  pub created :
      Dict.get s.queue_by_name name ≡ none
      → let q = new_resource s (IdGenerator.next_id s.ids).1 name description tags vt exp now in
        ((create_queue s name description tags vt exp now).1 ≡ ok q)
        × ((create_queue s name description tags vt exp now).0.queue_resources
            ≡ Dict.put s.queue_resources q.id q)
        × ((create_queue s name description tags vt exp now).0.queue_by_name
            ≡ Dict.put s.queue_by_name name q.id)
  unfolding create_queue IdGenerator.next_id
  created free = (
    rw (create_queue, free),
    rw (create_queue, free) (ap (λ r. r.resources) (registry-apply_settings _ name _ _)),
    rw (create_queue, free) (ap (λ r. r.by_name) (registry-apply_settings _ name _ _)),
  )

  -- A queue that CreateQueue returns has the name that it was asked for, and GetQueueByID and
  -- GetQueueByName return it from then on.
  create-get :
      (s' : MemoryStore) (q : StoredQueue)
      → create_queue s name description tags vt exp now ≡ (s', ok q)
      → (q.name ≡ name) × (get_queue_by_id s' q.id ≡ ok q) × (get_queue_by_name s' name ≡ ok q)
  create-get s' q e = elim (Option-cases (Dict.get s.queue_by_name name)) [
    | inl free ↦
        let (one, two, three) = created free in
        let res = new_resource s (IdGenerator.next_id s.ids).1 name description tags vt exp now in
        let same : res ≡ q = cc (one, ap (λ p. p.1) e) in
        let there : Dict.get s'.queue_resources q.id ≡ some q =
          cc (
            two,
            ap (λ p. p.0.queue_resources) e,
            same,
            get-put_self s.queue_resources res.id res,
          ) in
        let named : Dict.get s'.queue_by_name name ≡ some q.id =
          cc (
            three,
            ap (λ p. p.0.queue_by_name) e,
            same,
            get-put_self s.queue_by_name name res.id,
          ) in
        (cc same, by_id_found s' q.id q there, by_name_found s' name q.id q named there)
    | inr (id, taken) ↦
        absurd (not_ok (ap (λ p. p.1) (sym (create_queue-conflict.0 (rw taken)) ∙ e)))
  ]

module _ (s : MemoryStore) (id : String) where
  -- What the store has after the queue of an ID is deleted.
  abbrev pub Forgets : MemoryStore → Type 0
  Forgets s' =
      (q : StoredQueue) × (get_queue_by_id s id ≡ ok q)
      × (get_queue_by_id s' id ≡ err queue_not_found)
      × (get_queue_by_name s' q.name ≡ err queue_not_found)
      × (Dict.get s'.queues q.name ≡ none)
      × ((other : String) → other ≢ id → get_queue_by_id s' other ≡ get_queue_by_id s other)

  deleted :
      (q : StoredQueue)
      → Dict.get s.queue_resources id ≡ some q
      → Forgets (delete_queue_by_id s id).0
  unfolding delete_queue_by_id
  deleted q there =
      rw (delete_queue_by_id, there)
        (
          q,
          by_id_found s id q there,
          unfold get_queue_by_id in ap found (get-remove_self s.queue_resources id),
          by_name_missing _ q.name (get-remove_self s.queue_by_name q.name),
          get-remove_self s.queues q.name,
          λ other ne.
              unfold get_queue_by_id in
              ap found (get-remove_ne s.queue_resources id other (λ e. ne (sym e))),
        )

  -- After DeleteQueueByID has succeeded the queue, which had been there, is found neither by its ID
  -- nor by its name, its messages are gone, and every other queue is found by its ID as before.
  pub delete-Forgets : (s' : MemoryStore) → delete_queue_by_id s id ≡ (s', none) → Forgets s'
  unfolding delete_queue_by_id
  delete-Forgets s' e = elim (Option-cases (Dict.get s.queue_resources id)) [
    | inl missing ↦ absurd (ground arith)
    | inr (q, there) ↦ subst Forgets (ap (λ p. p.0) e) (deleted q there)
  ]
