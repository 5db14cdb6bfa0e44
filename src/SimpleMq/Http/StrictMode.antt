-- ===== src/SimpleMq/Http/StrictMode.antt =====
-- The strict mode of simplemq/handler.go: the key that rotate-apikey issues, and the token that the
-- data plane accepts.
use Prim.Native.String.append
use Prim.Native.Char.{code}
use sakumock.Dict
use sakumock.SimpleMq.Queue.{Time}
use sakumock.SimpleMq.Store.{MemoryStore, StoredQueue}
use sakumock.SimpleMq.Store.Control.{get_queue_by_name, rotate_api_key}
use sakumock.SimpleMq.Store.Control.Consistency.{IsConsistent, registry}
use sakumock.SimpleMq.Http.Auth.{Access, after_prefix, token_accepted, authorized}
use sakumock.SimpleMq.Http.ControlPlane.{handle_rotate_api_key}
use sakumock.Prelude.{
  ℕ, ◌≡◌, ◌≢◌, refl, sym, ap, ◌∙◌, String, concat, true, some, ok, ◌==◌, str_eq, str_eq-false,
  string_eq, arith, Bool-cases, inl, inr,
}

after_prefix-concat : (p s : String) → after_prefix p (concat p s) ≡ some s
unfolding after_prefix
after_prefix-concat String.[] s = ap some (append.nil s)
after_prefix-concat (String.◌∷◌ c p) s =
    let same : (code c == code c) ≡ true = ground arith in
    let step : concat (String.◌∷◌ c p) s ≡ String.◌∷◌ c (concat p s) = append.cons c p s in
    ap (after_prefix (String.◌∷◌ c p)) step ∙ rw same (after_prefix-concat p s)

rotated_key :
    (s : MemoryStore) (n : ℕ) (id : String) (q : StoredQueue) (key : String) (now : Time)
    → IsConsistent n (registry s)
    → Dict.get s.queue_resources id ≡ some q
    → get_queue_by_name (rotate_api_key s id key now).0 q.name
      ≡ ok (record q { api_key = key; modified_at = now })
unfolding get_queue_by_name rotate_api_key
rotated_key s n id q key now consistent found =
    let q' : StoredQueue = record q { api_key = key; modified_at = now } in
    let (own, named) = consistent.named id q found in
    let there = Dict.get-put_self s.queue_resources id q' in
    let changed : (rotate_api_key s id key now).0
        ≡ record s { queue_resources = Dict.put s.queue_resources id q' } =
      rw (rotate_api_key, found) refl in
    ap (λ t. get_queue_by_name t q.name) changed ∙ rw (get_queue_by_name, named, there) refl

-- In strict mode, once rotate-apikey has answered a key for a queue of a consistent store, the data
-- plane accepts exactly that key as the bearer token of the queue's requests. The key is not empty.
rotated_key_is_the_token :
    (access : Access) (s : MemoryStore) (n : ℕ) (id : String) (q : StoredQueue)
    → (key token : String) (now : Time) → access.strict ≡ true
    → IsConsistent n (registry s)
    → Dict.get s.queue_resources id ≡ some q
    → key ≢ ""
    → authorized access (handle_rotate_api_key s id key now).0 q.name (concat "Bearer " token)
      ≡ str_eq token key
unfolding authorized token_accepted handle_rotate_api_key
rotated_key_is_the_token access s n id q key token now strict consistent found some_key =
    let given = after_prefix-concat "Bearer " token in
    let found' = rotated_key s n id q key now consistent found in
    let not_empty = str_eq-false key "" some_key in
    rw (authorized, given, token_accepted, strict, found', not_empty)
      (elim (Bool-cases (str_eq token "")) [
        | inr some_token ↦ rw some_token refl
        | inl none_given ↦
            let path : token ≡ "" = (string_eq.beq_iff token "").0 none_given in
            rw none_given (sym (str_eq-false token key (λ e. some_key (sym e ∙ path))))
      ])
