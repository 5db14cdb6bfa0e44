-- ===== src/SimpleMq/Store/Control/Settings.antt =====
-- The settings of a queue, between its resource and its messages.
use sakumock.Core.IdGenerator
use sakumock.Dict
use sakumock.Dict.{get-put_self, get-put_ne, get-put_cases}
use sakumock.SimpleMq.Queue.{Time, Duration, MemoryQueue}
use sakumock.SimpleMq.Store.{StoredQueue, MemoryStore, second, fresh_queue, resource_of}
use sakumock.SimpleMq.Store.Isolation.{queue_at, queue_at_found, queue_at_missing}
use sakumock.SimpleMq.Store.Control.{create_queue, update_queue, apply_settings, new_resource}
use sakumock.SimpleMq.Store.Control.Consistency.{registry, IsConsistent}
use mathlib.Core.Path.{subst, subst₂}
use sakumock.SimpleMq.Store.Control.Lifecycle.{not_ok, create_queue-conflict}
use sakumock.Prelude.{
  ℕ, ◌*◌, ◌/◌, ◌≡◌, refl, sym, ap, ◌∙◌, String, List, none, some, ok, string_eq, Option-cases, inl,
  inr, arith,
}

-- The two settings of a queue.
abbrev pub Has : Duration → Duration → MemoryQueue → Type 0
Has vt me q = (q.visibility_timeout ≡ vt) × (q.message_expiration ≡ me)

-- The settings of the queue that getQueue makes for a name of the control plane.
fresh_queue-Has :
    (s : MemoryStore) (name id : String) (q : StoredQueue)
    → Dict.get s.queue_by_name name ≡ some id
    → Dict.get s.queue_resources id ≡ some q
    → Has (q.visibility_timeout_seconds * second) (q.expire_seconds * second) (fresh_queue s name)
unfolding fresh_queue
fresh_queue-Has s name id q named there = rw (fresh_queue, resource_of, named, there) (refl, refl)

module _ (s : MemoryStore) (name : String) (vt me : Duration) where
  settings-found :
      (q : MemoryQueue)
      → Dict.get s.queues name ≡ some q
      → Has vt me (queue_at (apply_settings s name vt me) name)
  unfolding apply_settings
  settings-found q there =
      rw (apply_settings, there)
        (subst (Has vt me) (sym (queue_at_found _ name _ (get-put_self s.queues name _)))
          (refl, refl))

  settings-missing :
      Dict.get s.queues name ≡ none
      → queue_at (apply_settings s name vt me) name ≡ fresh_queue s name
  unfolding apply_settings
  settings-missing missing = rw (apply_settings, missing) (queue_at_missing s name missing)

-- Settings that agree with the resource of the name reach the queue, there or not.
applied :
    (s : MemoryStore) (name id : String) (q : StoredQueue)
    → Dict.get s.queue_by_name name ≡ some id
    → Dict.get s.queue_resources id ≡ some q
    → let vt = q.visibility_timeout_seconds * second in
      let me = q.expire_seconds * second in Has vt me (queue_at (apply_settings s name vt me) name)
applied s name id q named there =
    let vt = q.visibility_timeout_seconds * second in
    let me = q.expire_seconds * second in
    elim (Option-cases (Dict.get s.queues name)) [
      | inl missing ↦
          subst (Has vt me) (sym (settings-missing s name vt me missing))
            (fresh_queue-Has s name id q named there)
      | inr (m, present) ↦ settings-found s name vt me m present
    ]

-- After UpdateQueue, in a store whose registry is consistent, the message queue of that name has
-- the settings of the request, whether it was there already or is made later.
pub update-settings :
    (n : ℕ) (s s' : MemoryStore) (id description : String) (tags : List String) (vt exp : ℕ)
    (now : Time) (q : StoredQueue)
    → IsConsistent n (registry s)
    → update_queue s id description tags vt exp now ≡ (s', ok q)
    → Has (vt * second) (exp * second) (queue_at s' q.name)
unfolding update_queue
update-settings n s s' id description tags vt exp now q c e =
    elim (Option-cases (Dict.get s.queue_resources id)) [
      | inl missing ↦ absurd (ground arith)
      | inr (old, there) ↦
          let changed : StoredQueue = record old {
            description = description;
            tags = tags;
            visibility_timeout_seconds = vt;
            expire_seconds = exp;
            modified_at = now;
          } in
          let s₁ : MemoryStore = record s {
            queue_resources = Dict.put s.queue_resources id changed;
          } in
          let step : update_queue s id description tags vt exp now
              ≡ (apply_settings s₁ old.name (vt * second) (exp * second), ok changed) =
            rw (update_queue, there) in
          let same_name : old.name ≡ q.name = cc (ap (λ p. p.1) (sym step ∙ e)) in
          subst₂ (λ t name. Has (vt * second) (exp * second) (queue_at t name))
            (ap (λ p. p.0) (sym step ∙ e)) same_name
            (applied s₁ old.name id changed (c.named id old there).1
              (get-put_self s.queue_resources id changed))
    ]

-- CreateQueue with no setting of its own, as the handler calls it. A message queue that is there
-- already gets the store's defaults; one that is made later has their whole seconds only.
pub create-settings :
    (s s' : MemoryStore) (name description : String) (tags : List String) (now : Time)
    (q : StoredQueue)
    → create_queue s name description tags 0 0 now ≡ (s', ok q)
    → ((m : MemoryQueue)
        → Dict.get s.queues name ≡ some m
        → Has s.visibility_timeout s.message_expiration (queue_at s' name))
      × (Dict.get s.queues name ≡ none
          → Has
              (s.visibility_timeout / second * second)
              (s.message_expiration / second * second)
              (queue_at s' name))
unfolding create_queue
create-settings s s' name description tags now q e =
    elim (Option-cases (Dict.get s.queue_by_name name)) [
      | inr (id, taken) ↦ absurd (
          not_ok (
            ap (λ p. p.1)
              (sym ((create_queue-conflict s name description tags 0 0 now).0 (rw taken)) ∙ e)))
      | inl free ↦
          let id = (IdGenerator.next_id s.ids).1 in
          let res = new_resource s id name description tags 0 0 now in
          let s₁ : MemoryStore = record s {
            ids = (IdGenerator.next_id s.ids).0;
            queue_resources = Dict.put s.queue_resources id res;
            queue_by_name = Dict.put s.queue_by_name name id;
          } in
          let step : create_queue s name description tags 0 0 now
              ≡ (apply_settings s₁ name s.visibility_timeout s.message_expiration, ok res) =
            rw (create_queue, free) in
          let left = ap (λ p. p.0) (sym step ∙ e) in
          (
            λ m there.
                subst (λ t. Has s.visibility_timeout s.message_expiration (queue_at t name)) left
                  (settings-found s₁ name s.visibility_timeout s.message_expiration m there),
            λ missing.
                subst
                  (λ t.
                    Has (s.visibility_timeout / second * second)
                      (s.message_expiration / second * second) (queue_at t name))
                  left
                  (subst
                    (Has (s.visibility_timeout / second * second)
                      (s.message_expiration / second * second))
                    (sym
                      (settings-missing s₁ name s.visibility_timeout s.message_expiration missing))
                    (fresh_queue-Has s₁ name id res (get-put_self s.queue_by_name name id)
                      (get-put_self s.queue_resources id res))),
          )
    ]
