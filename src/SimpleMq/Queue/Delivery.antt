-- ===== src/SimpleMq/Queue/Delivery.antt =====
-- receive takes the first message that is neither expired nor hidden, and touches no other.
use sakumock.SimpleMq.Queue.{
  Time, Duration, StoredMessage, MemoryQueue, acquired, is_expired, is_hidden, receive,
  receive_loop,
}
use sakumock.Prelude.{
  ◌≤◌, ◌≡◌, refl, ap, List, [], ◌∷◌, ◌++◌, Option, none, some, ◌⊎◌, inl, inr, arith, All, true,
  false, ◌||◌, Bool-cases,
}

-- A message that may be delivered: not past its expiry, and never acquired or past its timeout.
pub record IsAvailable (now : Time) (m : StoredMessage) : Type 0 where
  pub unexpired : now ≤ m.expires_at
  pub visible : (m.visibility_timeout_at ≡ 0) ⊎ (m.visibility_timeout_at ≤ now)

-- The first available message of a list, with what stands before and after it.
pub record Found (now : Time) (ms : List StoredMessage) : Type 0 where
  pub front : List StoredMessage
  pub message : StoredMessage
  pub back : List StoredMessage
  pub split : ms ≡ front ++ message ∷ back
  pub passed : All (λ m. ¬ IsAvailable now m) front
  pub available : IsAvailable now message

-- The two outcomes: nothing is available and nothing changes, or the first available message is
-- marked as acquired and returned.
abbrev pub Delivers :
    Duration → Time → List StoredMessage → List StoredMessage → Option StoredMessage → Type 0
Delivers vt now ms ms' r =
    ((r ≡ none) × (ms' ≡ ms) × All (λ m. ¬ IsAvailable now m) ms)
    ⊎ ((f : Found now ms) × (r ≡ some (acquired vt now f.message))
        × (ms' ≡ f.front ++ acquired vt now f.message ∷ f.back))

pub blocked :
    (now : Time) (m : StoredMessage)
    → is_expired now m || is_hidden now m ≡ true
    → ¬ IsAvailable now m
blocked now m h a = ground arith

pub free :
    (now : Time) (m : StoredMessage)
    → is_expired now m || is_hidden now m ≡ false
    → IsAvailable now m
free now m h = record { unexpired = ground arith; visible = ground arith }

module _ (vt : Duration) (now : Time) where
  Delivers-cons :
      (m : StoredMessage) (ms ms' : List StoredMessage) (r : Option StoredMessage)
      → ¬ IsAvailable now m
      → Delivers vt now ms ms' r
      → Delivers vt now (m ∷ ms) (m ∷ ms') r
  Delivers-cons m ms ms' r not (inl (nothing, same, all)) =
      inl (nothing, ap (◌∷◌ m) same, (not, all))
  Delivers-cons m ms ms' r not (inr (f, e, e')) = inr (
    record {
      front = m ∷ f.front;
      message = f.message;
      back = f.back;
      split = ap (◌∷◌ m) f.split;
      passed = (not, f.passed);
      available = f.available;
    },
    e,
    ap (◌∷◌ m) e',
  )

  pub receive_loop-passes :
      (m : StoredMessage) (ms : List StoredMessage)
      → is_expired now m || is_hidden now m ≡ true
      → receive_loop vt now (m ∷ ms) ≡ (m ∷ (receive_loop vt now ms).0, (receive_loop vt now ms).1)
  unfolding receive_loop
  receive_loop-passes m ms h = ground arith

  pub receive_loop-takes :
      (m : StoredMessage) (ms : List StoredMessage)
      → is_expired now m || is_hidden now m ≡ false
      → receive_loop vt now (m ∷ ms) ≡ (acquired vt now m ∷ ms, some (acquired vt now m))
  unfolding receive_loop
  receive_loop-takes m ms h = ground arith

  receive_loop-Delivers :
      (ms : List StoredMessage)
      → Delivers vt now ms (receive_loop vt now ms).0 (receive_loop vt now ms).1
  receive_loop-Delivers [] = unfold receive_loop in inl (refl, refl, tt)
  receive_loop-Delivers (m ∷ ms) = elim (Bool-cases (is_expired now m || is_hidden now m)) [
    | inl pass ↦
        rw (receive_loop-passes m ms pass)
          (Delivers-cons m ms _ _ (blocked now m pass) (receive_loop-Delivers ms))
    | inr take ↦ rw (receive_loop-takes m ms take) (
        inr (
          record {
            front = [];
            message = m;
            back = ms;
            split = refl;
            passed = tt;
            available = free now m take;
          },
          refl,
          refl,
        ))
  ]

-- receive returns nothing exactly when no message is available, and then changes nothing. Otherwise
-- it returns the first available message, in the order of the sends, marked as acquired now and
-- hidden for the queue's visibility timeout, and leaves every other message as it is.
pub receive-Delivers :
    (q : MemoryQueue) (now : Time)
    → Delivers q.visibility_timeout now q.messages (receive q now).0.messages (receive q now).1
unfolding receive
receive-Delivers q now = receive_loop-Delivers q.visibility_timeout now q.messages
