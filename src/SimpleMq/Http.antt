-- ===== src/SimpleMq/Http.antt =====
-- The request handling of simplemq/handler.go and simplemq/handler_control.go. A body is the value
-- that its JSON holds, `none` where it cannot be read or decoded. An error response is its status:
-- its text is not modelled. Fault injection, the rate limit and the validation of bodies, which
-- stand between the authentication and a handler, are not modelled.
pub mod Patterns
pub mod Auth
pub mod DataPlane
pub mod ControlPlane
pub mod StrictMode
pub mod QueueNames
use sakumock.SimpleMq.Queue.{Time}
use sakumock.Prelude.{ℕ, ◌-◌, ◌/◌, String, List, ℤ, pos, negsuc, leb, if◌then◌else◌}

-- UnixMilli, of a time in nanoseconds since the zero time, which lies 62135596800 seconds before 1970
abbrev pub unix_milli : Time → ℤ
unix_milli t =
    let ms : ℕ = t / 1_000_000 in
    let epoch : ℕ = 62_135_596_800_000 in
    if leb epoch ms then pos (ms - epoch) else negsuc (epoch - ms - 1)

pub record NewMessageResponse : Type 0 where
  pub id : String
  pub content : String
  pub created_at : ℤ
  pub updated_at : ℤ
  pub expires_at : ℤ

pub record MessageResponse : Type 0 where
  pub id : String
  pub content : String
  pub created_at : ℤ
  pub updated_at : ℤ
  pub expires_at : ℤ
  pub acquired_at : ℤ
  pub visibility_timeout_at : ℤ

-- What the handlers write, by status
pub data Response (A : Type 0) : Type 0 where
  -- 200 and 201
  written created : A → Response A
  -- 400, 401, 404, 409 and 500
  bad_request unauthorized not_found conflict internal_error : Response A
