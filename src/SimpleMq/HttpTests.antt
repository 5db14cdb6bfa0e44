-- ===== src/SimpleMq/HttpTests.antt =====
-- The theorems on the path parameters of simplemq/handler.go at concrete inputs.
use sakumock.SimpleMq.Http.Patterns.{validate_queue_name, validate_message_id, scan_name, scan_id}
use sakumock.SimpleMq.Http.QueueNames.{IsName, validate_queue_name-IsName}
use sakumock.Prelude.{◌≡◌, refl, ◌↔◌, ◌≤◌, true, false, codes, length}

accepted : validate_queue_name "my-queue-1" ≡ true
unfolding validate_queue_name scan_name
accepted = refl

double_hyphen : validate_queue_name "my--queue" ≡ false
unfolding validate_queue_name scan_name
double_hyphen = refl

message_id : validate_message_id "0192f3a4-7b1c-7def-8a00-0123456789ab" ≡ true
unfolding validate_message_id scan_id
message_id = refl

upper_case_id : validate_message_id "0192F3A4-7b1c-7def-8a00-0123456789ab" ≡ false
unfolding validate_message_id scan_id
upper_case_id = refl

validate_queue_name-IsName_example :
    validate_queue_name "my-queue-1" ≡ true
    ↔ IsName (codes "my-queue-1")
      × (5 ≤ length (codes "my-queue-1"))
      × (length (codes "my-queue-1") ≤ 64)
validate_queue_name-IsName_example = validate_queue_name-IsName "my-queue-1"
