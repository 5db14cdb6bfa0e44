-- ===== src/Kms/Http.antt =====
-- The handlers of kms/handler.go. A body is the value that its JSON holds, `none` where ReadJSON
-- returns an error; an error response is its status, without its text. The middleware around the
-- handlers is not modelled. `format` is core.FormatRFC3339Nano of core/time.go.
pub mod Rotation
use sakumock.Core.Paging.{Page, PageError, parse_page, paginate}
use sakumock.Kms.Crypto.{Bytes, Crypto}
use sakumock.Kms.Store
use sakumock.Kms.Store.{MemoryStore, KeyRecord, KeyError, Time}
use sakumock.Kms.Store.Cipher.{encrypt, decrypt}
use sakumock.Prelude.{
  ℕ, ◌+◌, ◌*◌, String, List, [], map, length, Bool, true, false, Option, none, some, Result, ok,
  err, str_eq, if◌then◌else◌,
}

pub data Response (A : Type 0) : Type 0 where
  -- 200 and 201
  written created : A → Response A
  -- 400, 403 and 404
  bad_request forbidden not_found : Response A

pub record KeyResponse : Type 0 where
  pub id : String
  pub created_at : String
  pub modified_at : String
  pub service_class : String
  pub name : String
  pub description : String
  pub key_origin : String
  pub latest_version : ℕ
  pub status : String
  pub deletion_scheduled_after : Option String
  pub tags : List String

pub record PaginatedKeyList : Type 0 where
  pub count : ℕ
  pub from : ℕ
  pub total : ℕ
  pub keys : List KeyResponse

pub record CreateKeyRequest : Type 0 where
  pub name : String
  pub description : String
  pub tags : Option (List String)
  pub plain_key : String

pub record UpdateKeyRequest : Type 0 where
  pub name : String
  pub description : String
  pub tags : Option (List String)

pub record KeyScheduledDestruction : Type 0 where
  pub status : String
  pub deletion_scheduled_after : Option String

-- A day, in nanoseconds
abbrev pub day : Time
day = 86_400_000_000_000

-- defaultPendingDays
abbrev pub default_pending_days : ℕ
default_pending_days = 7

abbrev or_not_found : {A B : Type 0} → (A → Response B) → Result KeyError A → Response B
or_not_found f (ok a) = f a
or_not_found f (err e) = not_found

abbrev or_bad_request : {A B : Type 0} → (A → Response B) → Result KeyError A → Response B
or_bad_request f (ok a) = f a
or_bad_request f (err e) = bad_request

module _ (format : Time → String) where
  -- formatOptionalTime
  abbrev pub format_optional_time : Option Time → Option String
  format_optional_time none = none
  format_optional_time (some t) = some (format t)

  -- keyRecordToResponse
  abbrev pub key_record_to_response : KeyRecord → KeyResponse
  key_record_to_response k = record {
    id = k.id;
    created_at = format k.created_at;
    modified_at = format k.modified_at;
    service_class = "cloud/kms/key";
    name = k.name;
    description = k.description;
    key_origin = k.key_origin;
    latest_version = k.latest_version;
    status = k.status;
    deletion_scheduled_after = format_optional_time k.deletion_scheduled_after;
    tags = k.tags;
  }

  -- handleListKeys, with the parameters From and Count; `none` is the panic of Paginate.
  unfoldable pub handle_list_keys :
      MemoryStore → String → String → Option (Response PaginatedKeyList)
  handle_list_keys s from count = elim (parse_page from count) [
    | err _ ↦ some bad_request
    | ok p ↦ elim (paginate (Store.list s) p) [
      | none ↦ none
      | some page ↦ some (
          written (record {
            count = length page;
            from = p.from;
            total = length (Store.list s);
            keys = map key_record_to_response page;
          }))
    ]
  ]

  -- handleCreateKey, with the material that Create draws
  unfoldable pub handle_create_key :
      MemoryStore → Option CreateKeyRequest → Bytes → Time → MemoryStore × Response KeyResponse
  handle_create_key s none key now = (s, bad_request)
  handle_create_key s (some req) key now =
      let origin = if str_eq req.plain_key "" then "generated" else "imported" in
      let (s', k) = Store.create s req.name req.description origin req.tags key now in
      (s', created (key_record_to_response k))

  -- handleReadKey
  unfoldable pub handle_read_key : MemoryStore → String → Response KeyResponse
  handle_read_key s id = or_not_found (λ k. written (key_record_to_response k)) (Store.read s id)

  -- handleUpdateKey
  unfoldable pub handle_update_key :
      MemoryStore → String → Option UpdateKeyRequest → Time → MemoryStore × Response KeyResponse
  handle_update_key s id none now = (s, bad_request)
  handle_update_key s id (some req) now =
      let (s', changed) = Store.update s id req.name req.description req.tags now in
      (s', or_not_found (λ k. written (key_record_to_response k)) changed)

  -- The response of handleRotateKey: the record that comes with an error has no ID where there is no
  -- key.
  abbrev pub rotate_response : Option KeyRecord × Option KeyError → Response KeyResponse
  rotate_response (some k, none) = written (key_record_to_response k)
  rotate_response (none, none) = not_found
  rotate_response (none, some _) = not_found
  rotate_response (some k, some _) = if str_eq k.id "" then not_found else forbidden

  -- handleRotateKey, or the panic of Rotate
  unfoldable pub handle_rotate_key :
      Crypto → MemoryStore → String → Time → Option (MemoryStore × Response KeyResponse)
  handle_rotate_key c s id now = elim (Store.rotate c s id now) [
    | none ↦ none
    | some rotated ↦ some (rotated.0, rotate_response rotated.1)
  ]

  -- handleScheduleDestruction, with PendingDays, which the request schema keeps from 7 to 90; its days
  -- are those of a time zone without summer time.
  unfoldable pub handle_schedule_destruction :
      MemoryStore
      → String
      → Option (Option ℕ)
      → Time
      → MemoryStore × Response KeyScheduledDestruction
  handle_schedule_destruction s id none now = (s, bad_request)
  handle_schedule_destruction s id (some pending_days) now =
      let days : ℕ = elim pending_days [ none ↦ default_pending_days | some d ↦ d ] in
      let (s', scheduled) = Store.schedule_destruction s id (now + days * day) now in
      (
        s',
        or_not_found
            (λ k. written (record {
              status = k.status;
              deletion_scheduled_after = format_optional_time k.deletion_scheduled_after;
            }))
            scheduled,
      )

-- handleChangeStatus, with Status, which it answers
unfoldable pub handle_change_status :
    MemoryStore → String → Option String → Time → MemoryStore × Response String
handle_change_status s id none now = (s, bad_request)
handle_change_status s id (some status) now =
    let (s', failed) = Store.change_status s id status now in
    (s', elim failed [ some _ ↦ not_found | none ↦ written status ])

-- handleEncrypt, with the bytes of Plain and the nonce that Encrypt draws
unfoldable pub handle_encrypt :
    Crypto → MemoryStore → String → Option Bytes → Option Bytes → Response String
handle_encrypt c s id none drawn = bad_request
handle_encrypt c s id (some plain) drawn =
    or_not_found (λ _. or_bad_request (λ text. written text) (encrypt c s id plain drawn))
      (Store.read s id)

-- handleDecrypt, with Cipher
unfoldable pub handle_decrypt : Crypto → MemoryStore → String → Option String → Response Bytes
handle_decrypt c s id none = bad_request
handle_decrypt c s id (some cipher) =
    or_not_found (λ _. or_bad_request (λ plain. written plain) (decrypt c s id cipher))
      (Store.read s id)
