-- ===== src/SimpleMq/StoreTests.antt =====
-- The theorems on the store of simplemq/ at concrete inputs.
use sakumock.Core.IdGenerator
use sakumock.Core.IdGenerator.{IdGenerator}
use sakumock.Core.Decimal.{format_int}
use sakumock.Dict
use sakumock.Dict.{get-empty, get-put_self}
use sakumock.SimpleMq.Queue.{MemoryQueue}
use sakumock.SimpleMq.Store.{
  MemoryStore, StoredQueue, new_memory_store, second, send, receive, extend_timeout, delete,
}
use sakumock.SimpleMq.Store.Isolation.{queue_at, data_plane_leaves_others}
use sakumock.SimpleMq.Store.Control.{
  create_queue, update_queue, delete_queue_by_id, new_resource, apply_settings,
}
use sakumock.SimpleMq.Store.Control.Consistency.{registry, IsConsistent, register-IsConsistent}
use sakumock.SimpleMq.Store.Control.Lifecycle.{delete-Forgets, Forgets}
use sakumock.SimpleMq.Store.Control.Registry.{new_memory_store-IsConsistent}
use sakumock.SimpleMq.Store.Control.Settings.{Has, update-settings, create-settings}
use sakumock.Prelude.{
  ◌*◌, ◌/◌, ◌≡◌, refl, String, none, some, [], ok, pos, arith, string_eq, str_ne, false,
}

abbrev ids : IdGenerator
ids = record { next = pos 900; reserved = Dict.empty }

abbrev fresh : MemoryStore
fresh = record {
  queues = Dict.empty;
  queue_resources = Dict.empty;
  queue_by_name = Dict.empty;
  ids = ids;
  visibility_timeout = 1_500_000_000;
  message_expiration = 345_600_000_000_000;
  closed = false;
}

fresh_is_new : new_memory_store (pos 1_500_000_000) (pos 0) ids ≡ fresh
unfolding new_memory_store
fresh_is_new = refl

new_memory_store-IsConsistent_example :
    IsConsistent 900 (registry (new_memory_store (pos 1_500_000_000) (pos 0) ids))
new_memory_store-IsConsistent_example =
    new_memory_store-IsConsistent (pos 1_500_000_000) (pos 0) ids 900 refl

fresh-IsConsistent : IsConsistent 900 (registry fresh)
unfolding new_memory_store
fresh-IsConsistent = new_memory_store-IsConsistent (pos 1_500_000_000) (pos 0) ids 900 refl

data_plane_leaves_others_example :
    (Dict.get (send "c" fresh "orders" "eA==" 7).0.queues "bills" ≡ Dict.get fresh.queues "bills")
    × (Dict.get (receive fresh "orders" 7).0.queues "bills" ≡ Dict.get fresh.queues "bills")
    × (Dict.get (extend_timeout fresh "orders" "c" 7).0.queues "bills"
        ≡ Dict.get fresh.queues "bills")
    × (Dict.get (delete fresh "orders" "c").0.queues "bills" ≡ Dict.get fresh.queues "bills")
data_plane_leaves_others_example =
    data_plane_leaves_others fresh "orders" "c" "eA==" 7 "bills" (str_ne "orders" "bills" refl)

abbrev orders : StoredQueue
orders = new_resource fresh "900" "orders" "" [] 0 0 7

-- The store with the queue, and with no message queue yet.
abbrev stocked : MemoryStore
stocked = record fresh {
  ids = record { next = pos 901; reserved = Dict.empty };
  queue_resources = Dict.put fresh.queue_resources "900" orders;
  queue_by_name = Dict.put fresh.queue_by_name "orders" "900";
}

stocked_by_create : create_queue fresh "orders" "" [] 0 0 7 ≡ (stocked, ok orders)
unfolding create_queue apply_settings IdGenerator.next_id format_int
stocked_by_create = rw (
  create_queue,
  get-empty {K = String} {V = String} "orders",
  apply_settings,
  get-empty {K = String} {V = MemoryQueue} "orders",
)

stocked-IsConsistent : IsConsistent 901 (registry stocked)
unfolding format_int
stocked-IsConsistent =
    register-IsConsistent (registry fresh) 900 fresh-IsConsistent (omega arith) orders (pos 901)
      refl (get-empty "orders") refl

create-settings_example :
    ((m : MemoryQueue)
      → Dict.get fresh.queues "orders" ≡ some m
      → Has 1_500_000_000 345_600_000_000_000 (queue_at stocked "orders"))
    × (Dict.get fresh.queues "orders" ≡ none
        → Has
            (1_500_000_000 / second * second)
            (345_600_000_000_000 / second * second)
            (queue_at stocked "orders"))
create-settings_example = create-settings fresh stocked "orders" "" [] 7 orders stocked_by_create

-- A visibility timeout of 1.5 seconds has become one of 1 second.
rounded : (queue_at stocked "orders").visibility_timeout ≡ second
rounded =
    ((create-settings fresh stocked "orders" "" [] 7 orders stocked_by_create).1
      (get-empty "orders")).0

abbrev changed : StoredQueue
changed = record orders {
  description = "all";
  visibility_timeout_seconds = 60;
  expire_seconds = 3600;
  modified_at = 8;
}

changed_by_update : update_queue stocked "900" "all" [] 60 3600 8 ≡ (
  apply_settings
      (record stocked { queue_resources = Dict.put stocked.queue_resources "900" changed })
      "orders"
      (60 * second)
      (3600 * second),
  ok changed,
)
unfolding update_queue
changed_by_update = rw (update_queue, get-put_self fresh.queue_resources "900" orders)

update-settings_example : Has (60 * second) (3600 * second) (
    queue_at
      (apply_settings
        (record stocked { queue_resources = Dict.put stocked.queue_resources "900" changed })
        "orders"
        (60 * second)
        (3600 * second))
      "orders")
update-settings_example =
    update-settings 901 stocked _ "900" "all" [] 60 3600 8 changed stocked-IsConsistent
      changed_by_update

delete-Forgets_example : Forgets stocked "900" (delete_queue_by_id stocked "900").0
unfolding delete_queue_by_id
delete-Forgets_example =
    delete-Forgets stocked "900" (delete_queue_by_id stocked "900").0
      (rw (delete_queue_by_id, get-put_self fresh.queue_resources "900" orders))
