-- ===== src/SimpleMq/Tests.antt =====
-- The theorems on simplemq/ at concrete inputs.
use sakumock.SimpleMq.Queue.{StoredMessage, MemoryQueue, acquired, receive, compact, delete}
use sakumock.SimpleMq.Queue.Delivery.{Delivers, receive-Delivers}
use sakumock.SimpleMq.Queue.Expiry.{receive-compact}
use sakumock.SimpleMq.Queue.Redelivery.{receive_redelivers}
use sakumock.SimpleMq.Queue.Removal.{At, delete-At}
use sakumock.SimpleMq.Queue.Ops
use sakumock.SimpleMq.Queue.Ops.{Event, delivered}
use sakumock.SimpleMq.Queue.Ops.Exclusive.{receive_is_exclusive}
use sakumock.Prelude.{
  ◌≡◌, ◌≢◌, refl, String, some, List, [], ◌∷◌, ◌++◌, ◌⊎◌, arith, All, true, false, is_some, str_ne,
}

abbrev message : String → StoredMessage
message id = record {
  id = id;
  content = "aGk=";
  created_at = 10;
  updated_at = 10;
  expires_at = 1010;
  acquired_at = 0;
  visibility_timeout_at = 0;
}

abbrev queue : MemoryQueue
queue = record {
  messages = message "a" ∷ message "b" ∷ [];
  visibility_timeout = 30;
  message_expiration = 1000;
}

abbrev taken : MemoryQueue
taken = record queue { messages = acquired 30 20 (message "a") ∷ message "b" ∷ [] }

receive_first : receive queue 20 ≡ (taken, some (acquired 30 20 (message "a")))
unfolding receive
receive_first = refl

receive-Delivers_example :
    Delivers 30 20 queue.messages (receive queue 20).0.messages (receive queue 20).1
receive-Delivers_example = receive-Delivers queue 20

abbrev events : List Event
events =
    record { op = Ops.receive; at = 25 }
    ∷ record { op = Ops.send "c" "eA=="; at = 30 }
    ∷ record { op = Ops.extend_timeout "a"; at = 40 }
    ∷ record { op = Ops.receive; at = 49 }
    ∷ []

receive_is_exclusive_example : All (λ m. m.id ≢ "a") (delivered taken events)
receive_is_exclusive_example =
    receive_is_exclusive queue taken 20 (acquired 30 20 (message "a")) events
      ((str_ne "a" "b" refl, tt), (tt, tt)) receive_first
      (
        (omega arith, omega arith, tt),
        (
          (omega arith, omega arith, str_ne "c" "a" refl),
          ((omega arith, omega arith, tt), ((omega arith, omega arith, tt), tt)),
        ),
      )

receive_redelivers_example : is_some (receive taken 50).1 ≡ true
receive_redelivers_example =
    receive_redelivers queue taken 20 50 (acquired 30 20 (message "a")) receive_first (omega arith)
      (omega arith)

receive-compact_example :
    receive (compact queue 20) 30 ≡ (compact (receive queue 30).0 20, (receive queue 30).1)
receive-compact_example = receive-compact queue 20 30 (omega arith)

delete-At_example :
    (((delete queue "b").1 ≡ false)
      × ((delete queue "b").0.messages ≡ queue.messages)
      × All (λ m. m.id ≢ "b") queue.messages)
    ⊎ ((a : At "b" queue.messages) × ((delete queue "b").1 ≡ true)
        × ((delete queue "b").0.messages ≡ a.front ++ a.back))
delete-At_example = delete-At queue "b"

delete_second : delete queue "b" ≡ (record queue { messages = message "a" ∷ [] }, true)
unfolding delete
delete_second = refl
