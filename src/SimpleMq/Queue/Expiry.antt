-- ===== src/SimpleMq/Queue/Expiry.antt =====
-- compact and count, which drop what has expired, beside receive, which passes it over.
use sakumock.SimpleMq.Queue
use sakumock.SimpleMq.Queue.{
  Time, Duration, StoredMessage, MemoryQueue, acquired, before, is_expired, is_hidden, receive_loop,
  unexpired, count_loop,
}
use sakumock.Prelude.{◌<◌, ◌≤◌, ◌≡◌, refl, List, [], ◌∷◌, some, arith, length}

module _ (vt : Duration) (c now : Time) (lt : c < now) where
  -- What compact drops, receive passes over from then on.
  receive_loop-unexpired :
      (ms : List StoredMessage)
      → receive_loop vt now (unexpired c ms)
        ≡ (unexpired c (receive_loop vt now ms).0, (receive_loop vt now ms).1)
  unfolding receive_loop unexpired
  receive_loop-unexpired [] = refl
  receive_loop-unexpired (m ∷ ms) = ground (arith, receive_loop-unexpired ms)

-- A compaction changes nothing for the receives after it: to compact at `c` and then to receive at
-- a later time returns the same message as to receive without it, and leaves what compacting after
-- that receive would leave.
pub receive-compact :
    (q : MemoryQueue) (c now : Time)
    → c < now
    → Queue.receive (Queue.compact q c) now
      ≡ (Queue.compact (Queue.receive q now).0 c, (Queue.receive q now).1)
unfolding Queue.receive Queue.compact
receive-compact q c now lt =
    let step = receive_loop-unexpired q.visibility_timeout c now lt q.messages in ground arith

length-unexpired :
    (now : Time) (ms : List StoredMessage) → length (unexpired now ms) ≡ count_loop now ms
unfolding unexpired count_loop
length-unexpired now [] = refl
length-unexpired now (m ∷ ms) = ground (arith, length-unexpired now ms)

count_loop-unexpired :
    (c now : Time) (ms : List StoredMessage)
    → c ≤ now
    → count_loop now (unexpired c ms) ≡ count_loop now ms
unfolding unexpired count_loop
count_loop-unexpired c now [] le = refl
count_loop-unexpired c now (m ∷ ms) le = ground (arith, count_loop-unexpired c now ms le)

-- count is the number of messages that a compaction at the same time keeps, and an earlier
-- compaction does not change it.
count-compact :
    (q : MemoryQueue) (c now : Time)
    → c ≤ now
    → (Queue.count q now ≡ length (Queue.compact q now).messages)
      × (Queue.count (Queue.compact q c) now ≡ Queue.count q now)
unfolding Queue.count Queue.compact
count-compact q c now le =
    (omega (arith, length-unexpired now q.messages), count_loop-unexpired c now q.messages le)

-- At the very time of its expiry a visible message that stands first in its queue is still
-- delivered, though count no longer counts it and compact drops it.
receive_at_expiry :
    (q : MemoryQueue) (m : StoredMessage) (ms : List StoredMessage)
    → q.messages ≡ m ∷ ms
    → m.visibility_timeout_at ≤ m.expires_at
    → (Queue.count q m.expires_at ≡ Queue.count (record q { messages = ms }) m.expires_at)
      × ((Queue.receive q m.expires_at).1 ≡ some (acquired q.visibility_timeout m.expires_at m))
unfolding Queue.count Queue.receive count_loop receive_loop
receive_at_expiry q m ms e le = (ground arith, ground arith)
