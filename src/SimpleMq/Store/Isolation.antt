-- ===== src/SimpleMq/Store/Isolation.antt =====
-- The data plane on one queue leaves the other queues alone.
use sakumock.Dict
use sakumock.Dict.{get-put_ne, get-put_self}
use sakumock.SimpleMq.Queue
use sakumock.SimpleMq.Queue.{Time, MemoryQueue}
use sakumock.SimpleMq.Store.{
  MemoryStore, get_queue, fresh_queue, set_queue, send, receive, extend_timeout, delete,
}
use sakumock.Prelude.{◌≡◌, ◌≢◌, ◌∙◌, String, none, some, string_eq, Option-cases, inl, inr}

-- The queue that a data-plane method works on: the one of that name, or a new one.
pub queue_at : MemoryStore → String → MemoryQueue
unfolding get_queue
queue_at s name = (get_queue s name).1

pub queue_at_found :
    (s : MemoryStore) (name : String) (q : MemoryQueue)
    → Dict.get s.queues name ≡ some q
    → queue_at s name ≡ q
unfolding queue_at get_queue
queue_at_found s name q found = rw (queue_at, get_queue, found)

pub queue_at_missing :
    (s : MemoryStore) (name : String)
    → Dict.get s.queues name ≡ none
    → queue_at s name ≡ fresh_queue s name
unfolding queue_at get_queue
queue_at_missing s name missing = rw (queue_at, get_queue, missing)

module _ (s : MemoryStore) (name : String) where
  set-get_self : (s' : MemoryStore) (q : MemoryQueue) → queue_at (set_queue s' name q) name ≡ q
  set-get_self s' q = queue_at_found (set_queue s' name q) name q (get-put_self s'.queues name q)

  set-get_other :
      (q : MemoryQueue) (other : String)
      → name ≢ other
      → Dict.get (set_queue (get_queue s name).0 name q).queues other ≡ Dict.get s.queues other
  set-get_other q other ne = elim (Option-cases (Dict.get s.queues name)) [
    | inl missing ↦
        unfold get_queue in
        rw (get_queue, missing)
          (get-put_ne (Dict.put s.queues name (fresh_queue s name)) name other q ne
            ∙ get-put_ne s.queues name other (fresh_queue s name) ne)
    | inr (p, found) ↦
        unfold get_queue in rw (get_queue, found) (get-put_ne s.queues name other q ne)
  ]

  -- Send, Receive, ExtendTimeout and Delete on one queue leave every queue of another name, and
  -- the messages in it, as they are.
  pub data_plane_leaves_others :
      (id content : String) (now : Time) (other : String)
      → name ≢ other
      → (Dict.get (send id s name content now).0.queues other ≡ Dict.get s.queues other)
        × (Dict.get (receive s name now).0.queues other ≡ Dict.get s.queues other)
        × (Dict.get (extend_timeout s name id now).0.queues other ≡ Dict.get s.queues other)
        × (Dict.get (delete s name id).0.queues other ≡ Dict.get s.queues other)
  data_plane_leaves_others id content now other ne = (
    unfold send in set-get_other _ other ne,
    unfold receive in set-get_other _ other ne,
    unfold extend_timeout in set-get_other _ other ne,
    unfold delete in set-get_other _ other ne,
  )

  -- Each of them stores the queue that it has changed: the next one finds what it left.
  data_plane_stores :
      (id content : String) (now : Time)
      → (queue_at (send id s name content now).0 name
          ≡ (Queue.send id (queue_at s name) content now).0)
        × (queue_at (receive s name now).0 name ≡ (Queue.receive (queue_at s name) now).0)
        × (queue_at (extend_timeout s name id now).0 name
            ≡ (Queue.extend_timeout (queue_at s name) id now).0)
        × (queue_at (delete s name id).0 name ≡ (Queue.delete (queue_at s name) id).0)
  unfolding queue_at
  data_plane_stores id content now = (
    unfold send in set-get_self _ _,
    unfold receive in set-get_self _ _,
    unfold extend_timeout in set-get_self _ _,
    unfold delete in set-get_self _ _,
  )
