-- ===== src/SimpleMq/Queue/Removal.antt =====
-- delete and extendTimeout, which look a message up by its ID.
use sakumock.SimpleMq.Queue
use sakumock.SimpleMq.Queue.{
  Time, Duration, StoredMessage, MemoryQueue, extended, extend_loop, delete_loop,
}
use sakumock.Prelude.{
  ◌≡◌, ◌≢◌, refl, ap, String, List, [], ◌∷◌, ◌++◌, none, some, ◌⊎◌, inl, inr, All, true, false,
  Bool-cases, str_eq, eq_iff, str_ne,
}

-- The first message with an ID, with what stands before and after it.
pub record At (id : String) (ms : List StoredMessage) : Type 0 where
  pub front : List StoredMessage
  pub message : StoredMessage
  pub back : List StoredMessage
  pub split : ms ≡ front ++ message ∷ back
  pub passed : All (λ m. m.id ≢ id) front
  pub found : message.id ≡ id

abbrev At-cons :
    (id : String) (x : StoredMessage) (ms : List StoredMessage)
    → x.id ≢ id
    → At id ms
    → At id (x ∷ ms)
At-cons id x ms ne a = record {
  front = x ∷ a.front;
  message = a.message;
  back = a.back;
  split = ap (◌∷◌ x) a.split;
  passed = (ne, a.passed);
  found = a.found;
}

abbrev At-here :
    (id : String) (x : StoredMessage) (ms : List StoredMessage) → x.id ≡ id → At id (x ∷ ms)
At-here id x ms e = record {
  front = [];
  message = x;
  back = ms;
  split = refl;
  passed = tt;
  found = e;
}

delete_loop-At :
    (id : String) (ms : List StoredMessage)
    → (((delete_loop id ms).1 ≡ false) × ((delete_loop id ms).0 ≡ ms) × All (λ m. m.id ≢ id) ms)
      ⊎ ((a : At id ms) × ((delete_loop id ms).1 ≡ true)
          × ((delete_loop id ms).0 ≡ a.front ++ a.back))
unfolding delete_loop
delete_loop-At id [] = inl (refl, refl, tt)
delete_loop-At id (x ∷ ms) = elim (Bool-cases (str_eq x.id id)) [
  | inl here ↦ inr (At-here id x ms ((eq_iff x.id id).0 here), rw here, rw here)
  | inr there ↦ elim (delete_loop-At id ms) [
    | inl (miss, same, all) ↦
        inl (rw there miss, rw there (ap (◌∷◌ x) same), (str_ne x.id id there, all))
    | inr (a, hit, rest) ↦
        inr (At-cons id x ms (str_ne x.id id there) a, rw there hit, rw there (ap (◌∷◌ x) rest))
  ]
]

extend_loop-At :
    (vt : Duration) (now : Time) (id : String) (ms : List StoredMessage)
    → (((extend_loop vt now id ms).1 ≡ none)
        × ((extend_loop vt now id ms).0 ≡ ms)
        × All (λ m. m.id ≢ id) ms)
      ⊎ ((a : At id ms) × ((extend_loop vt now id ms).1 ≡ some (extended vt now a.message))
          × ((extend_loop vt now id ms).0 ≡ a.front ++ extended vt now a.message ∷ a.back))
unfolding extend_loop
extend_loop-At vt now id [] = inl (refl, refl, tt)
extend_loop-At vt now id (x ∷ ms) = elim (Bool-cases (str_eq x.id id)) [
  | inl here ↦ inr (At-here id x ms ((eq_iff x.id id).0 here), rw here, rw here)
  | inr there ↦ elim (extend_loop-At vt now id ms) [
    | inl (miss, same, all) ↦
        inl (rw there miss, rw there (ap (◌∷◌ x) same), (str_ne x.id id there, all))
    | inr (a, hit, rest) ↦
        inr (At-cons id x ms (str_ne x.id id there) a, rw there hit, rw there (ap (◌∷◌ x) rest))
  ]
]

-- delete reports "message not found" and changes nothing where no message has the ID. Otherwise it
-- removes the first message with the ID, and no other.
pub delete-At :
    (q : MemoryQueue) (id : String)
    → (((Queue.delete q id).1 ≡ false)
        × ((Queue.delete q id).0.messages ≡ q.messages)
        × All (λ m. m.id ≢ id) q.messages)
      ⊎ ((a : At id q.messages) × ((Queue.delete q id).1 ≡ true)
          × ((Queue.delete q id).0.messages ≡ a.front ++ a.back))
unfolding Queue.delete
delete-At q id = delete_loop-At id q.messages

-- extendTimeout reports "message not found" and changes nothing where no message has the ID.
-- Otherwise it hides the first message with the ID for the queue's visibility timeout from now,
-- returns it as changed, and changes no other.
extend_timeout-At :
    (q : MemoryQueue) (id : String) (now : Time)
    → (((Queue.extend_timeout q id now).1 ≡ none)
        × ((Queue.extend_timeout q id now).0.messages ≡ q.messages)
        × All (λ m. m.id ≢ id) q.messages)
      ⊎ ((a : At id q.messages) × ((Queue.extend_timeout q id now).1
            ≡ some (extended q.visibility_timeout now a.message))
          × ((Queue.extend_timeout q id now).0.messages
              ≡ a.front ++ extended q.visibility_timeout now a.message ∷ a.back))
unfolding Queue.extend_timeout
extend_timeout-At q id now = extend_loop-At q.visibility_timeout now id q.messages
