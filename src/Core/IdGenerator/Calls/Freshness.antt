-- ===== src/Core/IdGenerator/Calls/Freshness.antt =====
-- Next never repeats itself, nor hands out an ID that has been reserved.
use sakumock.Core.Decimal.{format_int, parse_int}
use sakumock.Core.Decimal.RoundTrip.{format_int-injective, parse_int-format_int}
use sakumock.Core.IdGenerator
use sakumock.Core.IdGenerator.{IdGenerator, reserve_number}
use sakumock.Core.IdGenerator.Calls.{Call, call, issued, next, reserve, observe}
use sakumock.Core.IdGenerator.Calls.Bounds.{number, given, position, call_moves_up}
use sakumock.Prelude.{
  ℕ, suc, ◌+◌, ◌<◌, ◌≤◌, String, ◌≡◌, ◌≢◌, refl, ap, sym, negsuc, ◌∙◌, Option, none, some, List, [],
  ◌∷◌, arith, ℤ, pos, max_int64, length, All, All-map, Distinct,
}

-- An ID of a number from `n` on.
abbrev IsFrom : ℕ → String → Type 0
IsFrom n id = (k : ℕ) × (id ≡ format_int (pos k)) × (n ≤ k) × (k ≤ max_int64)

IsFrom-le : (m n : ℕ) → n ≤ m → (id : String) → IsFrom m id → IsFrom n id
IsFrom-le m n h id (k, e, lo, hi) = (k, e, omega arith, hi)

-- The calls fit: they are given numbers below `b`, and there are not too many of them.
abbrev pub Fit : ℕ → List Call → Type 0
Fit b calls = All (λ c. given c < b) calls

format_int-ne : (m n : ℕ) → m < n → n ≤ max_int64 → format_int (pos m) ≢ format_int (pos n)
format_int-ne m n lt hi e = absurd (omega (arith, format_int-injective m n (omega arith) hi e))

pub next_number :
    (g : IdGenerator) (n : ℕ)
    → g.next ≡ pos n
    → n < max_int64
    → (IdGenerator.next_id g).0.next ≡ pos (n + 1)
unfolding IdGenerator.next_id
next_number g n e h = ground arith

module _ (b : ℕ) where
  -- What is issued after a call is from the generator's number on, if it is so of what follows.
  after_call :
      (calls : List Call) (c : Call) (g : IdGenerator) (n used : ℕ)
      → g.next ≡ pos n
      → n ≤ b + used
      → b + used + suc (length calls) ≤ max_int64
      → given c < b
      → ((m : ℕ)
          → (call g c).next ≡ pos m
          → m ≤ b + (used + 1)
          → b + (used + 1) + length calls ≤ max_int64
          → All (IsFrom m) (issued (call g c) calls))
      → All (IsFrom n) (issued (call g c) calls)
  after_call calls c g n used e lo hi k rest =
      let (live, low, high) = call_moves_up g c n e (omega arith) (omega arith) in
      let m = position (call g c).next in
      All-map (issued (call g c) calls) (IsFrom-le m n low)
        (rest m live (omega arith) (omega arith))

  issued-IsFrom :
      (calls : List Call) (g : IdGenerator) (n used : ℕ)
      → g.next ≡ pos n
      → n ≤ b + used
      → b + used + length calls ≤ max_int64
      → Fit b calls
      → All (IsFrom n) (issued g calls)
  unfolding issued IdGenerator.next_id
  issued-IsFrom [] g n used e lo hi fit = tt
  issued-IsFrom (next ∷ calls) g n used e lo hi fit = (
    (n, ap format_int e, omega arith, omega arith),
    after_call calls next g n used e lo hi fit.0
        (λ m live low high. issued-IsFrom calls (call g next) m (used + 1) live low high fit.1),
  )
  issued-IsFrom (reserve id owner ∷ calls) g n used e lo hi fit =
      after_call calls (reserve id owner) g n used e lo hi fit.0 (λ m live low high.
        issued-IsFrom calls (call g (reserve id owner)) m (used + 1) live low high fit.1)
  issued-IsFrom (observe id ∷ calls) g n used e lo hi fit =
      after_call calls (observe id) g n used e lo hi fit.0 (λ m live low high.
        issued-IsFrom calls (call g (observe id)) m (used + 1) live low high fit.1)

  -- Of what a call leaves, each ID differs from one of a number below the generator's.
  not_issued :
      (calls : List Call) (g : IdGenerator) (k n used : ℕ)
      → k < n
      → g.next ≡ pos n
      → n ≤ b + used
      → b + used + length calls ≤ max_int64
      → Fit b calls
      → All (λ id. format_int (pos k) ≢ id) (issued g calls)
  not_issued calls g k n used lt e lo hi fit =
      All-map (issued g calls)
        (λ id above.
          let (j, same, low, high) = above in
          λ eq. format_int-ne k j (omega arith) high (eq ∙ same))
        (issued-IsFrom calls g n used e lo hi fit)

  distinct :
      (calls : List Call) (g : IdGenerator) (n used : ℕ)
      → g.next ≡ pos n
      → n ≤ b + used
      → b + used + length calls ≤ max_int64
      → Fit b calls
      → Distinct (issued g calls)
  unfolding issued IdGenerator.next_id
  distinct [] g n used e lo hi fit = tt
  distinct (next ∷ calls) g n used e lo hi fit =
      let after = next_number g n e (omega arith) in
      (
        All-map (issued (call g next) calls) (λ id ne eq. ne (sym (ap format_int e) ∙ eq))
            (not_issued calls (call g next) n (n + 1) (used + 1) (omega arith) after (omega arith)
              (omega arith) fit.1),
        distinct calls (call g next) (n + 1) (used + 1) after (omega arith) (omega arith) fit.1,
      )
  distinct (reserve id owner ∷ calls) g n used e lo hi fit =
      let (live, low, high) = call_moves_up g (reserve id owner) n e (omega arith) (omega arith) in
      distinct calls (call g (reserve id owner)) _ (used + 1) live (omega arith) (omega arith) fit.1
  distinct (observe id ∷ calls) g n used e lo hi fit =
      let (live, low, high) = call_moves_up g (observe id) n e (omega arith) (omega arith) in
      distinct calls (call g (observe id)) _ (used + 1) live (omega arith) (omega arith) fit.1

-- From a generator whose next number is `n`, along any sequence of the calls Next, Reserve and
-- Observe, by any service, no two calls of Next return the same ID. The numbers that the calls are
-- given and the count of the calls keep the next number within an int64.
pub issued-Distinct :
    (b : ℕ) (calls : List Call) (g : IdGenerator) (n : ℕ)
    → g.next ≡ pos n
    → n ≤ b
    → b + length calls ≤ max_int64
    → Fit b calls
    → Distinct (issued g calls)
issued-Distinct b calls g n e lo hi fit = distinct b calls g n 0 e (omega arith) (omega arith) fit

reserved_number :
    (g : IdGenerator) (id owner : String) (n : ℕ) (z : Option ℤ)
    → g.next ≡ pos n
    → number z < max_int64
    → (reserve_number z g id owner).1 ≡ none
    → (k : ℕ) × (z ≡ some (pos k)) × (k < position (reserve_number z g id owner).0.next)
unfolding IdGenerator.reserve_number
reserved_number g id owner n none e h ok = cc
reserved_number g id owner n (some (pos k)) e h ok = (k, refl, ground arith)
reserved_number g id owner n (some (negsuc k)) e h ok = ground arith

-- An ID that Reserve has claimed, for any owner, is never handed out by a later call of Next,
-- whatever the services call in between. The bounds are those of `issued-Distinct`.
pub reserved-not-issued :
    (b : ℕ) (calls : List Call) (g : IdGenerator) (n : ℕ) (id owner : String)
    → g.next ≡ pos n
    → n ≤ b
    → number (parse_int id) < b
    → b + length calls < max_int64
    → Fit b calls
    → (IdGenerator.reserve g id owner).1 ≡ none
    → All
        (λ issued_id. parse_int id ≢ parse_int issued_id)
        (issued (IdGenerator.reserve g id owner).0 calls)
unfolding IdGenerator.reserve call
reserved-not-issued b calls g n id owner e lo k hi fit ok =
    let (live, low, high) = call_moves_up g (reserve id owner) n e (omega arith) (omega arith) in
    let (j, read, above) = reserved_number g id owner n (parse_int id) e (omega arith) ok in
    All-map (issued (IdGenerator.reserve g id owner).0 calls)
      (λ issued_id from eq.
        let (i, same, i_low, i_high) = from in
        let same_number : j ≡ i = cc (read, eq, ap parse_int same, parse_int-format_int i i_high) in
        absurd (omega arith))
      (issued-IsFrom b calls (IdGenerator.reserve g id owner).0
        (position (IdGenerator.reserve g id owner).0.next) 1 live (omega arith) (omega arith) fit)
