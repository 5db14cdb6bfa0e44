-- ===== src/SimpleMq/Http/Auth.antt =====
-- The authentication of simplemq/handler.go: authMiddleware of the data plane and
-- basicAuthMiddleware of the control plane.
use Prim.Native.Char.{code}
use sakumock.SimpleMq.Store.{MemoryStore}
use sakumock.SimpleMq.Store.Control.{get_queue_by_name}
use sakumock.SimpleMq.Http.{Response, unauthorized}
use sakumock.Prelude.{
  String, Bool, true, false, Option, none, some, ok, err, ◌==◌, ◌&&◌, ◌||◌, not, str_eq,
  if◌then◌else◌,
}

-- What of Server the authentication reads
pub record Access : Type 0 where
  pub api_key : String
  pub strict : Bool

-- strings.HasPrefix and strings.TrimPrefix: the rest of a text after a prefix
unfoldable pub after_prefix : String → String → Option String
after_prefix String.[] s = some s
after_prefix (String.◌∷◌ p prefix) String.[] = none
after_prefix (String.◌∷◌ p prefix) (String.◌∷◌ c s) =
    let rest = after_prefix prefix s in if code p == code c then rest else none

-- The end of authMiddleware: whether the token is accepted
unfoldable pub token_accepted : Access → MemoryStore → String → String → Bool
token_accepted access s queue_name token = elim access.strict [
  | true ↦ elim (get_queue_by_name s queue_name) [
    | err e ↦ false
    | ok q ↦ not (str_eq q.api_key "") && str_eq token q.api_key
  ]
  | false ↦ str_eq access.api_key "" || str_eq token access.api_key
]

-- authMiddleware: whether it calls the next handler
unfoldable pub authorized : Access → MemoryStore → String → String → Bool
authorized access s queue_name header = elim (after_prefix "Bearer " header) [
  | none ↦ false
  | some token ↦ not (str_eq token "") && token_accepted access s queue_name token
]

abbrev pub auth_middleware :
    {A : Type 0}
    → Access
    → MemoryStore
    → String
    → String
    → MemoryStore × Response A
    → MemoryStore × Response A
auth_middleware access s queue_name header next =
    if authorized access s queue_name header then next else (s, unauthorized)

-- basicAuthMiddleware, of the user and the password that the header holds
unfoldable pub basic_auth_middleware :
    {A : Type 0}
    → Option (String × String)
    → MemoryStore
    → MemoryStore × Response A
    → MemoryStore × Response A
basic_auth_middleware none s next = (s, unauthorized)
basic_auth_middleware (some (user, pass)) s next =
    if str_eq user "" && str_eq pass "" then (s, unauthorized) else next
