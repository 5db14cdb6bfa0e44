-- ===== src/SimpleMq/Store.antt =====
-- MemoryStore of simplemq/store_memory.go and storedQueue of simplemq/store.go, with the methods of
-- the data plane and the compaction. The mutex makes each method one step: what another request
-- could do between the two locks of a data-plane method is not modelled.
pub mod Control
pub mod Isolation
use sakumock.Core.IdGenerator.{IdGenerator}
use sakumock.Dict
use sakumock.Dict.{Dict}
use sakumock.SimpleMq.Queue
use sakumock.SimpleMq.Queue.{Time, Duration, StoredMessage, MemoryQueue}
use sakumock.Prelude.{
  ℕ, suc, ◌*◌, String, List, Bool, true, false, Option, none, some, ℤ, pos, string_eq,
  if◌then◌else◌,
}

pub record StoredQueue : Type 0 where
  pub id : String
  pub name : String
  pub description : String
  pub tags : List String
  pub visibility_timeout_seconds : ℕ
  pub expire_seconds : ℕ
  pub api_key : String
  pub created_at : Time
  pub modified_at : Time

pub record MemoryStore : Type 0 where
  pub queues : Dict String MemoryQueue
  pub queue_resources : Dict String StoredQueue
  pub queue_by_name : Dict String String
  pub ids : IdGenerator
  pub visibility_timeout : Duration
  pub message_expiration : Duration
  -- The channel `done` is closed.
  pub closed : Bool

-- time.Second, in nanoseconds
abbrev pub second : Duration
second = 1_000_000_000

abbrev pub default_visibility_timeout : Duration
default_visibility_timeout = 30 * second

abbrev pub default_message_expiration : Duration
default_message_expiration = 4 * 24 * 3600 * second

-- if d <= 0 { d = default }
positive_or : ℤ → Duration → Duration
positive_or (pos (suc n)) default = suc n
positive_or _ default = default

-- NewMemoryStore, with the generator that it makes or is given
unfoldable pub new_memory_store : ℤ → ℤ → IdGenerator → MemoryStore
unfolding positive_or
new_memory_store visibility_timeout message_expiration ids = record {
  queues = Dict.empty;
  queue_resources = Dict.empty;
  queue_by_name = Dict.empty;
  ids = ids;
  visibility_timeout = positive_or visibility_timeout default_visibility_timeout;
  message_expiration = positive_or message_expiration default_message_expiration;
  closed = false;
}

-- The resource that the control plane has registered under a name.
unfoldable pub resource_of : MemoryStore → String → Option StoredQueue
resource_of s name = elim (Dict.get s.queue_by_name name) [
  | none ↦ none
  | some id ↦ Dict.get s.queue_resources id
]

-- The queue that getQueue makes for a name that has none yet: with the settings of the control
-- plane's resource if there is one, and else with the store's.
unfoldable pub fresh_queue : MemoryStore → String → MemoryQueue
unfolding resource_of Queue.new_memory_queue
fresh_queue s name = elim (resource_of s name) [
  | none ↦ Queue.new_memory_queue s.visibility_timeout s.message_expiration
  | some res ↦
      Queue.new_memory_queue (res.visibility_timeout_seconds * second) (res.expire_seconds * second)
]

-- getQueue
unfoldable pub get_queue : MemoryStore → String → MemoryStore × MemoryQueue
unfolding fresh_queue
get_queue s name = elim (Dict.get s.queues name) [
  | some q ↦ (s, q)
  | none ↦ (record s { queues = Dict.put s.queues name (fresh_queue s name) }, fresh_queue s name)
]

abbrev pub set_queue : MemoryStore → String → MemoryQueue → MemoryStore
set_queue s name q = record s { queues = Dict.put s.queues name q }

-- Send; `id` is the text of uuid.NewV7.
unfoldable pub send : String → MemoryStore → String → String → Time → MemoryStore × StoredMessage
unfolding get_queue
send id s queue_name content now =
    let (s', q) = get_queue s queue_name in
    let (q', msg) = Queue.send id q content now in (set_queue s' queue_name q', msg)

-- Receive
unfoldable pub receive : MemoryStore → String → Time → MemoryStore × Option StoredMessage
unfolding get_queue
receive s queue_name now =
    let (s', q) = get_queue s queue_name in
    let (q', msg) = Queue.receive q now in (set_queue s' queue_name q', msg)

-- ExtendTimeout; no message is the error "message not found".
unfoldable pub extend_timeout :
    MemoryStore → String → String → Time → MemoryStore × Option StoredMessage
unfolding get_queue
extend_timeout s queue_name id now =
    let (s', q) = get_queue s queue_name in
    let (q', msg) = Queue.extend_timeout q id now in (set_queue s' queue_name q', msg)

-- Delete; `false` is the error "message not found".
unfoldable pub delete : MemoryStore → String → String → MemoryStore × Bool
unfolding get_queue
delete s queue_name id =
    let (s', q) = get_queue s queue_name in
    let (q', found) = Queue.delete q id in (set_queue s' queue_name q', found)

-- A tick of compactLoop, which compacts every queue until the store is closed.
unfoldable pub compact_tick : MemoryStore → Time → MemoryStore
compact_tick s now =
    if s.closed
    then s
    else record s { queues = Dict.map_values (λ q. Queue.compact q now) s.queues }

-- Close
unfoldable pub close : MemoryStore → MemoryStore
close s = record s { closed = true }
