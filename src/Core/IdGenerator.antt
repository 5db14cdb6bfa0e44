-- ===== src/Core/IdGenerator.antt =====
-- IDGenerator of core/id.go: sequential resource IDs, handed out as decimal texts. The mutex makes
-- each method one step. Under the unified binary one generator serves every service.
pub mod Calls
use sakumock.Core.Decimal.{format_int, parse_int}
use sakumock.Dict
use sakumock.Dict.{Dict}
use sakumock.Prelude.{
  ℕ, ◌+◌, ◌*◌, ◌%◌, String, Option, none, some, ◌&&◌, not, leb_ℤ, inc64, ℤ, pos, str_eq, string_eq,
  if◌then◌else◌,
}

pub record IdGenerator : Type 0 where
  pub next : ℤ
  -- The owner of each ID that the user has chosen.
  pub reserved : Dict String String

pub data ReserveError : Type 0 where
  invalid_id : ReserveError
  already_reserved : String → ReserveError

-- DefaultIDBase, at the Unix time `seconds`
pub default_id_base : ℕ → ℤ
default_id_base seconds = pos (900_000_000_000 + (seconds % 1_000_000_000) * 100)

-- NewIDGenerator, at the Unix time `seconds`
pub new_id_generator : ℤ → ℕ → IdGenerator
unfolding default_id_base
new_id_generator base seconds = record {
  next = if leb_ℤ base (pos 0) then default_id_base seconds else base;
  reserved = Dict.empty;
}

-- Next
unfoldable pub next_id : IdGenerator → IdGenerator × String
next_id g = (record g { next = inc64 g.next }, format_int g.next)

-- if n >= g.next { g.next = n + 1 }
unfoldable pub advance_to : ℤ → ℤ → ℤ
advance_to n next = if leb_ℤ next n then inc64 n else next

claimed_by_other : Option String → String → Option String
claimed_by_other none owner = none
claimed_by_other (some prev) owner = if str_eq prev owner then none else some prev

reserve_number : Option ℤ → IdGenerator → String → String → IdGenerator × Option ReserveError
unfolding claimed_by_other advance_to
reserve_number none g id owner = (g, some invalid_id)
reserve_number (some n) g id owner =
    if leb_ℤ n (pos 0)
    then (g, some invalid_id)
    else elim (claimed_by_other (Dict.get g.reserved id) owner) [
      | some prev ↦ (g, some (already_reserved prev))
      | none ↦
          (record g { reserved = Dict.put g.reserved id owner; next = advance_to n g.next }, none)
    ]

-- Reserve: `none` where it returns no error.
unfoldable pub reserve : IdGenerator → String → String → IdGenerator × Option ReserveError
unfolding reserve_number
reserve g id owner = reserve_number (parse_int id) g id owner

-- Observe
unfoldable pub observe : IdGenerator → String → IdGenerator
unfolding advance_to
observe g existing = elim (parse_int existing) [
  | none ↦ g
  | some n ↦ record g { next = advance_to n g.next }
]
