-- ===== src/SimpleMq/Queue/Redelivery.antt =====
-- A message is not lost: it is delivered again once its timeout has passed.
use sakumock.SimpleMq.Queue
use sakumock.SimpleMq.Queue.{
  Time, Duration, StoredMessage, MemoryQueue, acquired, receive_loop, is_expired, is_hidden,
}
use sakumock.SimpleMq.Queue.Delivery.{
  IsAvailable, receive-Delivers, blocked, free, receive_loop-passes, receive_loop-takes,
}
use mathlib.Core.Path.{subst}
use sakumock.Prelude.{
  ◌+◌, ◌≤◌, ◌≡◌, refl, sym, ap, ◌∙◌, String, List, [], ◌∷◌, ◌++◌, some, inl, inr, arith, All,
  is_some, true, ◌||◌, Bool-cases,
}

-- A list that holds an available message, between others.
All-middle :
    (P : StoredMessage → Type 0) (front : List StoredMessage) (m : StoredMessage)
    (back : List StoredMessage)
    → All P (front ++ m ∷ back)
    → P m
All-middle P [] m back h = h.0
All-middle P (x ∷ front) m back h = All-middle P front m back h.1

receive_available :
    (q : MemoryQueue) (now : Time) (front : List StoredMessage) (m : StoredMessage)
    (back : List StoredMessage)
    → q.messages ≡ front ++ m ∷ back
    → IsAvailable now m
    → is_some (Queue.receive q now).1 ≡ true
receive_available q now front m back e a = elim (receive-Delivers q now) [
  | inl (nothing, same, all) ↦ absurd (
      All-middle (λ x. ¬ IsAvailable now x) front m back
        (subst (All (λ x. ¬ IsAvailable now x)) e all) a)
  | inr (f, hit, left) ↦ rw hit
]

-- After a receive at `now` has returned a message, a receive at any time from the end of the
-- visibility timeout to the message's expiry returns a message, if nothing happens in between.
pub receive_redelivers :
    (q q' : MemoryQueue) (now later : Time) (m : StoredMessage)
    → Queue.receive q now ≡ (q', some m)
    → now + q.visibility_timeout ≤ later
    → later ≤ m.expires_at
    → is_some (Queue.receive q' later).1 ≡ true
receive_redelivers q q' now later m e timeout live = elim (receive-Delivers q now) [
  | inl (nothing, same, all) ↦ cc (ap (λ p. p.1) e)
  | inr (f, hit, left) ↦
      let same : acquired q.visibility_timeout now f.message ≡ m = cc (ap (λ p. p.1) e) in
      receive_available q' later f.front (acquired q.visibility_timeout now f.message) f.back
        (sym (ap (λ p. p.0.messages) e) ∙ left)
        (record {
          unexpired = omega (arith, ap (λ (x : StoredMessage). x.expires_at) same);
          visible = inr timeout;
        })
]

receive_loop-skips :
    (vt : Duration) (now : Time) (ms : List StoredMessage) (m : StoredMessage)
    → All (λ x. ¬ IsAvailable now x) ms
    → IsAvailable now m
    → (receive_loop vt now (ms ++ m ∷ [])).1 ≡ some (acquired vt now m)
receive_loop-skips vt now [] m h a = elim (Bool-cases (is_expired now m || is_hidden now m)) [
  | inl pass ↦ absurd (blocked now m pass a)
  | inr take ↦ rw (receive_loop-takes vt now m [] take)
]
receive_loop-skips vt now (x ∷ ms) m h a = elim (Bool-cases (is_expired now x || is_hidden now x)) [
  | inl pass ↦
      rw (receive_loop-passes vt now x (ms ++ m ∷ []) pass) (receive_loop-skips vt now ms m h.1 a)
  | inr take ↦ absurd (h.0 (free now x take))
]

-- A message that is sent to a queue with nothing to deliver is what a receive returns next, with
-- its ID and content, up to its expiry.
receive-send :
    (q : MemoryQueue) (id content : String) (now later : Time)
    → All (λ m. ¬ IsAvailable later m) q.messages
    → later ≤ now + q.message_expiration
    → (Queue.receive (Queue.send id q content now).0 later).1
      ≡ some (acquired q.visibility_timeout later (Queue.send id q content now).1)
unfolding Queue.receive Queue.send
receive-send q id content now later not_yet live =
    receive_loop-skips q.visibility_timeout later q.messages _ not_yet
      (record { unexpired = live; visible = inl refl })
