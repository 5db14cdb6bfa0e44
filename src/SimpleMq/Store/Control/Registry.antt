-- ===== src/SimpleMq/Store/Control/Registry.antt =====
-- The operations of the control plane keep the registry consistent.
use sakumock.Core.IdGenerator
use sakumock.Core.IdGenerator.{IdGenerator}
use sakumock.Dict
use sakumock.Dict.{get-empty}
use sakumock.SimpleMq.Queue.{Time}
use sakumock.SimpleMq.Store.{MemoryStore, new_memory_store}
use sakumock.SimpleMq.Store.Control.{
  create_queue, update_queue, delete_queue_by_id, rotate_api_key, clear_messages,
}
use sakumock.SimpleMq.Store.Control.Consistency.{registry, IsConsistent}
use sakumock.Prelude.{
  ℕ, ◌+◌, ◌<◌, ◌≤◌, ◌≡◌, ◌∙◌, ℤ, pos, sym, String, List, none, some, max_int64, string_eq,
}

none-ne-some {ℓ} : {A : Type ℓ} (a : A) → ¬ (none ≡ some a)
none-ne-some a e = cc

-- A new store is consistent, at the next number of its generator.
pub new_memory_store-IsConsistent :
    (vt me : ℤ) (ids : IdGenerator) (n : ℕ)
    → ids.next ≡ pos n
    → IsConsistent n (registry (new_memory_store vt me ids))
unfolding new_memory_store
new_memory_store-IsConsistent vt me ids n live = record {
  named = λ id q h. absurd (none-ne-some q (sym (get-empty id) ∙ h));
  indexed = λ name id h. absurd (none-ne-some id (sym (get-empty name) ∙ h));
  below = λ id q h. absurd (none-ne-some q (sym (get-empty id) ∙ h));
  live = live;
}

-- The operations of the control plane that change the registry.
pub data Request : Type 0 where
  create : String → String → List String → ℕ → ℕ → Request
  update : String → String → List String → ℕ → ℕ → Request
  delete : String → Request
  rotate_key : String → String → Request
  clear : String → Request

pub serve : MemoryStore → Request → Time → MemoryStore
unfolding create_queue update_queue delete_queue_by_id rotate_api_key clear_messages
serve s (create name description tags vt exp) now =
    (create_queue s name description tags vt exp now).0
serve s (update id description tags vt exp) now = (update_queue s id description tags vt exp now).0
serve s (delete id) now = (delete_queue_by_id s id).0
serve s (rotate_key id key) now = (rotate_api_key s id key now).0
serve s (clear id) now = (clear_messages s id).0

module _ (s : MemoryStore) (n : ℕ) (c : IsConsistent n (registry s)) (small : n < max_int64)
    (now : Time) where
  -- The registry stays consistent, and the generator's number rises by at most one.
  abbrev Kept : MemoryStore → Type 0
  Kept s' = (m : ℕ) × (n ≤ m) × (m ≤ n + 1) × IsConsistent m (registry s')
