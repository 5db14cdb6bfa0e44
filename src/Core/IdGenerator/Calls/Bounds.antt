-- ===== src/Core/IdGenerator/Calls/Bounds.antt =====
-- A call of IDGenerator moves its next number up, and no further than past the number that it is
-- given.
use sakumock.Core.Decimal.{parse_int}
use sakumock.Core.IdGenerator
use sakumock.Core.IdGenerator.{IdGenerator, advance_to}
use sakumock.Core.IdGenerator.Calls.{Call, call, next, reserve, observe}
use sakumock.Prelude.{
  ℕ, ◌+◌, ◌<◌, ◌≤◌, max, ◌≡◌, Option, none, some, arith, ℤ, pos, negsuc, max_int64, Option-cases,
  inl, inr,
}

-- The number of a text that ParseInt reads as one that is not negative.
abbrev pub number : Option ℤ → ℕ
number none = 0
number (some (pos n)) = n
number (some (negsuc n)) = 0

-- The number of the ID that a call is given.
abbrev pub given : Call → ℕ
given next = 0
given (reserve id owner) = number (parse_int id)
given (observe id) = number (parse_int id)

abbrev pub position : ℤ → ℕ
position (pos n) = n
position (negsuc n) = 0

-- A next number within bounds.
abbrev pub Within : ℕ → ℕ → ℤ → Type 0
Within low high z = (z ≡ pos (position z)) × (low ≤ position z) × (position z ≤ high)

Within-advance_to :
    (n : ℕ) (z : ℤ)
    → n < max_int64
    → number (some z) < max_int64
    → Within n (max n (number (some z)) + 1) (advance_to z (pos n))
unfolding advance_to
Within-advance_to n z h k = ground arith

pub call_moves_up :
    (g : IdGenerator) (c : Call) (n : ℕ)
    → g.next ≡ pos n
    → n < max_int64
    → given c < max_int64
    → Within n (max n (given c) + 1) (call g c).next
unfolding call IdGenerator.reserve_number
call_moves_up g next n e h k = ground arith
call_moves_up g (reserve id owner) n e h k = elim (Option-cases (parse_int id)) [
  | inl bad ↦ rw bad (ground arith)
  | inr (z, read) ↦ ground (arith, Within-advance_to n z)
]
call_moves_up g (observe id) n e h k = elim (Option-cases (parse_int id)) [
  | inl bad ↦ rw bad (ground arith)
  | inr (z, read) ↦ ground (arith, Within-advance_to n z)
]
