-- ===== src/SimpleMq/Queue/Ops/Exclusive.antt =====
-- A received message is delivered to no other receiver while it is hidden.
use sakumock.SimpleMq.Queue
use sakumock.SimpleMq.Queue.{Time, StoredMessage, MemoryQueue}
use sakumock.SimpleMq.Queue.Lease.{
  DistinctIds, Leased, receive_loop-leases, receive_loop-keeps, receive_loop-other,
  extend_loop-keeps, delete_loop-All, unexpired-All,
}
use sakumock.SimpleMq.Queue.Ops.{
  Op, Event, send, receive, extend_timeout, delete, compact, clear, apply, delivered,
}
use mathlib.Core.Path.{subst}
use sakumock.Prelude.{
  ◌+◌, ◌<◌, ◌≤◌, ◌≡◌, ◌≢◌, refl, ap, String, List, [], ◌∷◌, some, arith, All, All-append,
  Option-cases, inl, inr,
}

-- The call sends no message with this ID.
abbrev pub SendsOther : String → Op → Type 0
SendsOther id (send new content) = new ≢ id
SendsOther id _ = Unit

module _ (u : Time) (id : String) where
  apply-keeps :
      (op : Op) (q : MemoryQueue) (now : Time)
      → u ≤ now + q.visibility_timeout
      → SendsOther id op
      → All (Leased u id) q.messages
      → All (Leased u id) (apply q op now).0.messages
  unfolding apply
  apply-keeps (send new content) q now le other h =
      All-append (Leased u id) q.messages _ h (λ e. absurd (other e), tt)
  apply-keeps receive q now le other h =
      receive_loop-keeps u id q.visibility_timeout now q.messages le h
  apply-keeps (extend_timeout x) q now le other h =
      extend_loop-keeps u id q.visibility_timeout now x q.messages le h
  apply-keeps (delete x) q now le other h = delete_loop-All (Leased u id) x q.messages h
  apply-keeps compact q now le other h = unexpired-All (Leased u id) now q.messages h
  apply-keeps clear q now le other h = tt

  apply-timeout :
      (op : Op) (q : MemoryQueue) (now : Time)
      → (apply q op now).0.visibility_timeout ≡ q.visibility_timeout
  unfolding apply
  apply-timeout (send new content) q now = refl
  apply-timeout _ q now = refl

  apply-other :
      (op : Op) (q : MemoryQueue) (now : Time) (m : StoredMessage)
      → now < u
      → All (Leased u id) q.messages
      → (apply q op now).1 ≡ some m
      → m.id ≢ id
  unfolding apply
  apply-other receive q now m lt h e =
      receive_loop-other u id q.visibility_timeout now q.messages m lt h e
  apply-other _ q now m lt h e = cc

  -- The calls run from `start` on, before the time `u`, and send no message with the ID.
  abbrev pub Within : Time → List Event → Type 0
  Within start = All (λ e. (start ≤ e.at) × (e.at < u) × SendsOther id e.op)

  delivered-other :
      (start : Time) (es : List Event) (q : MemoryQueue)
      → u ≤ start + q.visibility_timeout
      → All (Leased u id) q.messages
      → Within start es
      → All (λ m. m.id ≢ id) (delivered q es)
  unfolding delivered
  delivered-other start [] q le h w = tt
  delivered-other start (e ∷ es) q le h w =
      let q' = (apply q e.op e.at).0 in
      let later : All (λ m. m.id ≢ id) (delivered q' es) =
        delivered-other start es q' (omega (arith, apply-timeout e.op q e.at))
          (apply-keeps e.op q e.at (omega arith) w.0.2 h) w.1 in
      elim (Option-cases (apply q e.op e.at).1) [
        | inl nothing ↦ rw nothing later
        | inr (m, some_message) ↦
            rw some_message (apply-other e.op q e.at m w.0.1 h some_message, later)
      ]

-- After a receive at `now` has returned a message, no receive returns a message with its ID, along
-- any sequence of calls on the queue that happen from `now` on and before the visibility timeout
-- has passed: sends of other messages, receives, extensions, deletions, compactions and clearings.
-- The messages of the queue have distinct IDs.
pub receive_is_exclusive :
    (q q' : MemoryQueue) (now : Time) (m : StoredMessage) (es : List Event)
    → DistinctIds q.messages
    → Queue.receive q now ≡ (q', some m)
    → Within (now + q.visibility_timeout) m.id now es
    → All (λ x. x.id ≢ m.id) (delivered q' es)
unfolding Queue.receive
receive_is_exclusive q q' now m es d e w =
    let left : (Queue.receive_loop q.visibility_timeout now q.messages).0 ≡ q'.messages =
      ap (λ p. p.0.messages) e in
    let same : q.visibility_timeout ≡ q'.visibility_timeout = ap (λ p. p.0.visibility_timeout) e in
    let leased = receive_loop-leases q.visibility_timeout now q.messages m d (ap (λ p. p.1) e) in
    delivered-other (now + q.visibility_timeout) m.id now es q' (omega arith)
      (subst (All (Leased (now + q.visibility_timeout) m.id)) left leased) w
