-- ===== src/SimpleMq/Http/ControlPlane.antt =====
-- The handlers of the control plane in simplemq/handler_control.go. The text of the MD5 digest that
-- fills SettingsHash is a function of the text that it is made from.
use sakumock.Core.Decimal.{format_int}
use sakumock.SimpleMq.Queue.{Time}
use sakumock.SimpleMq.Store.{MemoryStore, StoredQueue}
use sakumock.SimpleMq.Store.Control
use sakumock.SimpleMq.Store.Control.{QueueError, queue_not_found, queue_conflict}
use sakumock.SimpleMq.Http.{
  Response, written, created, bad_request, not_found, conflict, internal_error,
}
use sakumock.Prelude.{
  ℕ, String, concat, List, map, length, Bool, true, Option, none, some, Result, ok, err, pos,
  str_eq, if◌then◌else◌,
}

-- cpCommonServiceItem, without the fields that are the same for every queue
pub record CommonServiceItem : Type 0 where
  pub id : String
  pub name : String
  pub description : Option String
  pub visibility_timeout_seconds : ℕ
  pub expire_seconds : ℕ
  pub settings_hash : String
  pub queue_name : String
  pub created_at : Time
  pub modified_at : Time
  pub tags : List String

pub record CreateQueueRequest : Type 0 where
  pub name : String
  pub description : String
  pub tags : List String

pub record UpdateQueueRequest : Type 0 where
  pub description : String
  pub visibility_timeout_seconds : ℕ
  pub expire_seconds : ℕ
  pub tags : List String

pub record QueueList : Type 0 where
  pub from : ℕ
  pub count : ℕ
  pub total : ℕ
  pub items : List CommonServiceItem

-- if errors.Is(err, ErrQueueNotFound) { 404 } 500
abbrev pub error_response : {A : Type 0} → QueueError → Response A
error_response queue_not_found = not_found
error_response queue_conflict = internal_error

-- if errors.Is(err, ErrQueueConflict) { 409 } 500
abbrev pub create_error_response : {A : Type 0} → QueueError → Response A
create_error_response queue_conflict = conflict
create_error_response queue_not_found = internal_error

abbrev pub respond : {A B : Type 0} → (A → Response B) → Result QueueError A → Response B
respond f (ok a) = f a
respond f (err e) = error_response e

module _ (md5 : String → String) where
  -- cpSettingsHash
  abbrev pub settings_hash : ℕ → ℕ → String
  settings_hash vt exp = md5 (concat (format_int (pos vt)) (concat ":" (format_int (pos exp))))

  -- queueToCSI
  abbrev pub queue_to_csi : StoredQueue → CommonServiceItem
  queue_to_csi q = record {
    id = q.id;
    name = q.name;
    description = if str_eq q.description "" then none else some q.description;
    visibility_timeout_seconds = q.visibility_timeout_seconds;
    expire_seconds = q.expire_seconds;
    settings_hash = settings_hash q.visibility_timeout_seconds q.expire_seconds;
    queue_name = q.name;
    created_at = q.created_at;
    modified_at = q.modified_at;
    tags = q.tags;
  }

  -- handleCreateQueue
  unfoldable pub handle_create_queue :
      MemoryStore → Option CreateQueueRequest → Time → MemoryStore × Response CommonServiceItem
  handle_create_queue s none now = (s, bad_request)
  handle_create_queue s (some csi) now =
      let (s', made) = Control.create_queue s csi.name csi.description csi.tags 0 0 now in
      (s', elim made [ ok q ↦ created (queue_to_csi q) | err e ↦ create_error_response e ])

  -- handleListQueues
  unfoldable pub handle_list_queues : MemoryStore → Response QueueList
  handle_list_queues s =
      let items = map queue_to_csi (Control.list_queues s) in
      written (record { from = 0; count = length items; total = length items; items = items })

  -- handleReadQueue
  unfoldable pub handle_read_queue : MemoryStore → String → Response CommonServiceItem
  handle_read_queue s id = respond (λ q. written (queue_to_csi q)) (Control.get_queue_by_id s id)

  -- handleUpdateQueue
  unfoldable pub handle_update_queue :
      MemoryStore
      → String
      → Option UpdateQueueRequest
      → Time
      → MemoryStore × Response CommonServiceItem
  handle_update_queue s id none now = (s, bad_request)
  handle_update_queue s id (some req) now =
      let (s', changed) =
        Control.update_queue s id req.description req.tags req.visibility_timeout_seconds
          req.expire_seconds now in
      (s', respond (λ q. written (queue_to_csi q)) changed)

  -- handleDeleteQueue
  unfoldable pub handle_delete_queue :
      MemoryStore → String → MemoryStore × Response CommonServiceItem
  handle_delete_queue s id = elim (Control.get_queue_by_id s id) [
    | err e ↦ (s, error_response e)
    | ok q ↦
        let (s', failed) = Control.delete_queue_by_id s id in
        (s', elim failed [ some e ↦ error_response e | none ↦ written (queue_to_csi q) ])
  ]

-- handleReadMessageCount
unfoldable pub handle_read_message_count : MemoryStore → String → Time → Response ℕ
handle_read_message_count s id now = respond (λ n. written n) (Control.count_messages s id now)

-- handleRotateAPIKey; `new_key` is the text of uuid.New, which it answers.
unfoldable pub handle_rotate_api_key :
    MemoryStore → String → String → Time → MemoryStore × Response String
handle_rotate_api_key s id new_key now =
    let (s', rotated) = Control.rotate_api_key s id new_key now in
    (s', respond (λ _. written new_key) rotated)

-- handleClearMessages: 200 where it answers `true`.
unfoldable pub handle_clear_messages : MemoryStore → String → MemoryStore × Response Bool
handle_clear_messages s id =
    let (s', failed) = Control.clear_messages s id in
    (s', elim failed [ some e ↦ error_response e | none ↦ written true ])
