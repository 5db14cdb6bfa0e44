-- ===== src/SimpleMq/Http/DataPlane.antt =====
-- The handlers of the data plane in simplemq/handler.go.
use sakumock.SimpleMq.Queue.{Time, StoredMessage}
use sakumock.SimpleMq.Store
use sakumock.SimpleMq.Store.{MemoryStore}
use sakumock.SimpleMq.Http.{
  Response, written, bad_request, not_found, unix_milli, NewMessageResponse, MessageResponse,
}
use sakumock.SimpleMq.Http.Patterns.{validate_queue_name, validate_message_id}
use sakumock.Prelude.{String, List, [], ◌∷◌, Bool, true, false, Option, none, some, if◌then◌else◌}

abbrev pub new_message_response : StoredMessage → NewMessageResponse
new_message_response msg = record {
  id = msg.id;
  content = msg.content;
  created_at = unix_milli msg.created_at;
  updated_at = unix_milli msg.updated_at;
  expires_at = unix_milli msg.expires_at;
}

abbrev pub message_response : StoredMessage → MessageResponse
message_response msg = record {
  id = msg.id;
  content = msg.content;
  created_at = unix_milli msg.created_at;
  updated_at = unix_milli msg.updated_at;
  expires_at = unix_milli msg.expires_at;
  acquired_at = unix_milli msg.acquired_at;
  visibility_timeout_at = unix_milli msg.visibility_timeout_at;
}

-- handleSend; `id` is the text of uuid.NewV7.
unfoldable pub handle_send :
    String → MemoryStore → String → Option String → Time → MemoryStore × Response NewMessageResponse
handle_send id s queue_name content now = elim (validate_queue_name queue_name) [
  | false ↦ (s, bad_request)
  | true ↦ elim content [
    | none ↦ (s, bad_request)
    | some text ↦
        let (s', msg) = Store.send id s queue_name text now in
        (s', written (new_message_response msg))
  ]
]

-- handleReceive
unfoldable pub handle_receive :
    MemoryStore → String → Time → MemoryStore × Response (List MessageResponse)
handle_receive s queue_name now = elim (validate_queue_name queue_name) [
  | false ↦ (s, bad_request)
  | true ↦
      let (s', found) = Store.receive s queue_name now in
      (s', written (elim found [ none ↦ [] | some msg ↦ message_response msg ∷ [] ]))
]

-- handleExtendTimeout
unfoldable pub handle_extend_timeout :
    MemoryStore → String → String → Time → MemoryStore × Response MessageResponse
handle_extend_timeout s queue_name message_id now = elim (validate_queue_name queue_name) [
  | false ↦ (s, bad_request)
  | true ↦ elim (validate_message_id message_id) [
    | false ↦ (s, bad_request)
    | true ↦
        let (s', found) = Store.extend_timeout s queue_name message_id now in
        (s', elim found [ none ↦ not_found | some msg ↦ written (message_response msg) ])
  ]
]

-- handleDelete: 200 where it answers `true`.
unfoldable pub handle_delete : MemoryStore → String → String → MemoryStore × Response Bool
handle_delete s queue_name message_id = elim (validate_queue_name queue_name) [
  | false ↦ (s, bad_request)
  | true ↦ elim (validate_message_id message_id) [
    | false ↦ (s, bad_request)
    | true ↦
        let (s', found) = Store.delete s queue_name message_id in
        (s', if found then written true else not_found)
  ]
]
