-- ===== src/SimpleMq/Queue/Ops.antt =====
-- Sequences of calls on one queue, each at its time.
pub mod Exclusive
use sakumock.SimpleMq.Queue
use sakumock.SimpleMq.Queue.{Time, StoredMessage, MemoryQueue}
use sakumock.Prelude.{String, List, [], ◌∷◌, Option, none, some}

pub data Op : Type 0 where
  -- the ID that the send draws, and the content
  send : String → String → Op
  receive : Op
  extend_timeout : String → Op
  delete : String → Op
  compact : Op
  clear : Op

pub record Event : Type 0 where
  pub op : Op
  pub at : Time

-- The queue after a call, and the message that a receive returns.
pub apply : MemoryQueue → Op → Time → MemoryQueue × Option StoredMessage
unfolding Queue.send Queue.receive Queue.extend_timeout Queue.delete Queue.compact Queue.clear
apply q (send id content) now = ((Queue.send id q content now).0, none)
apply q receive now = Queue.receive q now
apply q (extend_timeout id) now = ((Queue.extend_timeout q id now).0, none)
apply q (delete id) now = ((Queue.delete q id).0, none)
apply q compact now = (Queue.compact q now, none)
apply q clear now = (Queue.clear q, none)

abbrev consed : Option StoredMessage → List StoredMessage → List StoredMessage
consed none ms = ms
consed (some m) ms = m ∷ ms

-- The messages that the receives of a sequence return, in order.
pub delivered : MemoryQueue → List Event → List StoredMessage
delivered q [] = []
delivered q (e ∷ es) = consed (apply q e.op e.at).1 (delivered (apply q e.op e.at).0 es)

-- The queue after a sequence of calls.
pub run : MemoryQueue → List Event → MemoryQueue
run q [] = q
run q (e ∷ es) = run (apply q e.op e.at).0 es
