-- ===== src/SimpleMq/Store/Control.antt =====
-- The control-plane methods of MemoryStore in simplemq/store_memory.go.
pub mod Consistency
pub mod Registry
pub mod Lifecycle
pub mod Settings
use sakumock.Core.IdGenerator
use sakumock.Dict
use sakumock.SimpleMq.Queue
use sakumock.SimpleMq.Queue.{Time, Duration, MemoryQueue}
use sakumock.SimpleMq.Store.{StoredQueue, MemoryStore, second}
use sakumock.Prelude.{
  ℕ, ◌*◌, ◌/◌, String, List, Option, none, some, Result, ok, err, ltb, string_eq, if◌then◌else◌,
}

-- ErrQueueNotFound and ErrQueueConflict
pub data QueueError : Type 0 where
  queue_not_found queue_conflict : QueueError

-- if q, ok := s.queues[name]; ok { q.visibilityTimeout = vt; q.messageExpiration = me }
unfoldable pub apply_settings : MemoryStore → String → Duration → Duration → MemoryStore
apply_settings s name vt me = elim (Dict.get s.queues name) [
  | none ↦ s
  | some q ↦ record s {
    queues = Dict.put s.queues name (record q { visibility_timeout = vt; message_expiration = me });
  }
]

-- A setting of CreateQueue: in seconds, with the store's default in place of 0. The default's whole
-- seconds are those of Duration.Seconds, whose rounding does not show below 48 days.
abbrev pub setting_seconds : ℕ → Duration → ℕ
setting_seconds secs default = if ltb 0 secs then secs else default / second

abbrev pub setting_duration : ℕ → Duration → Duration
setting_duration secs default = if ltb 0 secs then secs * second else default

-- The resource that CreateQueue registers.
abbrev pub new_resource :
    MemoryStore → String → String → String → List String → ℕ → ℕ → Time → StoredQueue
new_resource s id name description tags vt_secs exp_secs now = record {
  id = id;
  name = name;
  description = description;
  tags = tags;
  visibility_timeout_seconds = setting_seconds vt_secs s.visibility_timeout;
  expire_seconds = setting_seconds exp_secs s.message_expiration;
  api_key = "";
  created_at = now;
  modified_at = now;
}

-- CreateQueue
unfoldable pub create_queue :
    MemoryStore
    → String
    → String
    → List String
    → ℕ
    → ℕ
    → Time
    → MemoryStore × Result QueueError StoredQueue
create_queue s name description tags vt_secs exp_secs now = elim (Dict.get s.queue_by_name name) [
  | some _ ↦ (s, err queue_conflict)
  | none ↦
      let (ids, id) = IdGenerator.next_id s.ids in
      let res = new_resource s id name description tags vt_secs exp_secs now in
      let registered : MemoryStore = record s {
        ids = ids;
        queue_resources = Dict.put s.queue_resources id res;
        queue_by_name = Dict.put s.queue_by_name name id;
      } in
      (
        apply_settings registered name (setting_duration vt_secs s.visibility_timeout)
            (setting_duration exp_secs s.message_expiration),
        ok res,
      )
]

-- ListQueues, in the order of the map's iteration
unfoldable pub list_queues : MemoryStore → List StoredQueue
list_queues s = Dict.values s.queue_resources

found : Option StoredQueue → Result QueueError StoredQueue
found none = err queue_not_found
found (some res) = ok res

-- GetQueueByID
unfoldable pub get_queue_by_id : MemoryStore → String → Result QueueError StoredQueue
unfolding found
get_queue_by_id s id = found (Dict.get s.queue_resources id)

-- GetQueueByName
unfoldable pub get_queue_by_name : MemoryStore → String → Result QueueError StoredQueue
unfolding found
get_queue_by_name s name = elim (Dict.get s.queue_by_name name) [
  | none ↦ err queue_not_found
  | some id ↦ found (Dict.get s.queue_resources id)
]

-- UpdateQueue
unfoldable pub update_queue :
    MemoryStore
    → String
    → String
    → List String
    → ℕ
    → ℕ
    → Time
    → MemoryStore × Result QueueError StoredQueue
update_queue s id description tags vt_secs exp_secs now = elim (Dict.get s.queue_resources id) [
  | none ↦ (s, err queue_not_found)
  | some res ↦
      let res' : StoredQueue = record res {
        description = description;
        tags = tags;
        visibility_timeout_seconds = vt_secs;
        expire_seconds = exp_secs;
        modified_at = now;
      } in
      (
        apply_settings (record s { queue_resources = Dict.put s.queue_resources id res' }) res.name
            (vt_secs * second) (exp_secs * second),
        ok res',
      )
]

-- DeleteQueueByID: `none` where it returns no error.
unfoldable pub delete_queue_by_id : MemoryStore → String → MemoryStore × Option QueueError
delete_queue_by_id s id = elim (Dict.get s.queue_resources id) [
  | none ↦ (s, some queue_not_found)
  | some res ↦ (
    record s {
      queue_resources = Dict.remove s.queue_resources id;
      queue_by_name = Dict.remove s.queue_by_name res.name;
      queues = Dict.remove s.queues res.name;
    },
    none,
  )
]

count_of : Option MemoryQueue → Time → ℕ
count_of none now = 0
count_of (some q) now = Queue.count q now

-- CountMessages
unfoldable pub count_messages : MemoryStore → String → Time → Result QueueError ℕ
unfolding count_of
count_messages s id now = elim (Dict.get s.queue_resources id) [
  | none ↦ err queue_not_found
  | some res ↦ ok (count_of (Dict.get s.queues res.name) now)
]

-- RotateAPIKey
unfoldable pub rotate_api_key :
    MemoryStore → String → String → Time → MemoryStore × Result QueueError StoredQueue
rotate_api_key s id new_key now = elim (Dict.get s.queue_resources id) [
  | none ↦ (s, err queue_not_found)
  | some res ↦
      let res' : StoredQueue = record res { api_key = new_key; modified_at = now } in
      (record s { queue_resources = Dict.put s.queue_resources id res' }, ok res')
]

-- ClearMessages: `none` where it returns no error.
unfoldable pub clear_messages : MemoryStore → String → MemoryStore × Option QueueError
clear_messages s id = elim (Dict.get s.queue_resources id) [
  | none ↦ (s, some queue_not_found)
  | some res ↦ elim (Dict.get s.queues res.name) [
    | none ↦ (s, none)
    | some q ↦ (record s { queues = Dict.put s.queues res.name (Queue.clear q) }, none)
  ]
]
