-- ===== src/SimpleMq/Queue.antt =====
-- memoryQueue of simplemq/store_memory.go, and storedMessage of simplemq/store.go. The mutex makes
-- each method one step. A time is the number of nanoseconds since Go's zero time, and a duration is
-- not negative (the store and the request schema see to that). A message is reached through its
-- queue alone, so the pointers of the slice are values here.
pub mod Delivery
pub mod Ops
pub mod Lease
pub mod Expiry
pub mod Removal
pub mod Redelivery
use sakumock.Prelude.{
  ℕ, zero, suc, ◌+◌, String, List, [], ◌∷◌, ◌++◌, Bool, true, false, ◌&&◌, ◌||◌, not, Option, none,
  some, ltb, ◌==◌, str_eq, if◌then◌else◌,
}

abbrev pub Time : Type 0
Time = ℕ

abbrev pub Duration : Type 0
Duration = ℕ

-- a.After(b)
abbrev pub after : Time → Time → Bool
after a b = ltb b a

-- a.Before(b)
abbrev pub before : Time → Time → Bool
before a b = ltb a b

-- t.IsZero()
abbrev pub is_zero : Time → Bool
is_zero t = t == 0

pub record StoredMessage : Type 0 where
  pub id : String
  pub content : String
  pub created_at : Time
  pub updated_at : Time
  pub expires_at : Time
  pub acquired_at : Time
  pub visibility_timeout_at : Time

pub record MemoryQueue : Type 0 where
  pub messages : List StoredMessage
  pub visibility_timeout : Duration
  pub message_expiration : Duration

-- newMemoryQueue
unfoldable pub new_memory_queue : Duration → Duration → MemoryQueue
new_memory_queue vt me = record { messages = []; visibility_timeout = vt; message_expiration = me }

-- send; `id` is the text of uuid.NewV7.
unfoldable pub send : String → MemoryQueue → String → Time → MemoryQueue × StoredMessage
send id q content now =
    let msg : StoredMessage = record {
      id = id;
      content = content;
      created_at = now;
      updated_at = now;
      expires_at = now + q.message_expiration;
      acquired_at = 0;
      visibility_timeout_at = 0;
    } in
    (record q { messages = q.messages ++ msg ∷ [] }, msg)

-- The two tests of receive's loop that pass a message over.
abbrev pub is_expired : Time → StoredMessage → Bool
is_expired now msg = after now msg.expires_at

abbrev pub is_hidden : Time → StoredMessage → Bool
is_hidden now msg = not (is_zero msg.visibility_timeout_at) && before now msg.visibility_timeout_at

abbrev pub acquired : Duration → Time → StoredMessage → StoredMessage
acquired vt now msg = record msg {
  acquired_at = now;
  updated_at = now;
  visibility_timeout_at = now + vt;
}

-- receive's loop: the messages after it, and the message that it returns.
pub receive_loop : Duration → Time → List StoredMessage → List StoredMessage × Option StoredMessage
receive_loop vt now [] = ([], none)
receive_loop vt now (msg ∷ rest) =
    let (rest', found) = receive_loop vt now rest in
    if is_expired now msg
    then (msg ∷ rest', found)
    else if is_hidden now msg
    then (msg ∷ rest', found)
    else (acquired vt now msg ∷ rest, some (acquired vt now msg))

-- receive
unfoldable pub receive : MemoryQueue → Time → MemoryQueue × Option StoredMessage
unfolding receive_loop
receive q now =
    let (messages, found) = receive_loop q.visibility_timeout now q.messages in
    (record q { messages = messages }, found)

-- The messages that have not expired, by the test of compact and count.
pub unexpired : Time → List StoredMessage → List StoredMessage
unexpired now [] = []
unexpired now (msg ∷ rest) =
    if before now msg.expires_at then msg ∷ unexpired now rest else unexpired now rest

-- compact: the loop moves what it keeps to the front of the slice, in order.
unfoldable pub compact : MemoryQueue → Time → MemoryQueue
unfolding unexpired
compact q now = record q { messages = unexpired now q.messages }

abbrev pub extended : Duration → Time → StoredMessage → StoredMessage
extended vt now msg = record msg { visibility_timeout_at = now + vt; updated_at = now }

pub extend_loop :
    Duration → Time → String → List StoredMessage → List StoredMessage × Option StoredMessage
extend_loop vt now id [] = ([], none)
extend_loop vt now id (msg ∷ rest) =
    let (rest', found) = extend_loop vt now id rest in
    if str_eq msg.id id
    then (extended vt now msg ∷ rest, some (extended vt now msg))
    else (msg ∷ rest', found)

-- extendTimeout; no message is the error "message not found".
unfoldable pub extend_timeout : MemoryQueue → String → Time → MemoryQueue × Option StoredMessage
unfolding extend_loop
extend_timeout q id now =
    let (messages, found) = extend_loop q.visibility_timeout now id q.messages in
    (record q { messages = messages }, found)

pub delete_loop : String → List StoredMessage → List StoredMessage × Bool
delete_loop id [] = ([], false)
delete_loop id (msg ∷ rest) =
    let (rest', found) = delete_loop id rest in
    if str_eq msg.id id then (rest, true) else (msg ∷ rest', found)

-- delete; `false` is the error "message not found".
unfoldable pub delete : MemoryQueue → String → MemoryQueue × Bool
unfolding delete_loop
delete q id =
    let (messages, found) = delete_loop id q.messages in (record q { messages = messages }, found)

-- clear
unfoldable pub clear : MemoryQueue → MemoryQueue
clear q = record q { messages = [] }

pub count_loop : Time → List StoredMessage → ℕ
count_loop now [] = 0
count_loop now (msg ∷ rest) =
    if before now msg.expires_at then count_loop now rest + 1 else count_loop now rest

-- count
unfoldable pub count : MemoryQueue → Time → ℕ
unfolding count_loop
count q now = count_loop now q.messages
