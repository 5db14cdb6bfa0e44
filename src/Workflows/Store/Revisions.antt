-- ===== src/Workflows/Store/Revisions.antt =====
-- The list of the revisions of a workflow, in s.revisions of workflows/store_memory.go: its numbers and
-- its aliases, under the changes that the store makes of it.
use sakumock.Workflows.Store.Records.{RevisionRecord}
use sakumock.Workflows.Store.{numbered, aliased, taken, next_revision_id}
use sakumock.Prelude.{
  ℕ, suc, ◌+◌, ◌≤◌, ◌<◌, ◌≡◌, refl, String, List, [], ◌∷◌, ◌++◌, Bool, true, false, not, ◌&&◌, ◌||◌,
  some, arith, length, All, All-append, All-find, ◌==◌, str_eq, eq_iff, find, any, change_first,
  last, inl, inr, Bool-cases,
}

-- The revisions are numbered in their order, from `n` on.
abbrev pub CountUp : ℕ → List RevisionRecord → Type 0
CountUp n [] = Unit
CountUp n (r ∷ revs) = (r.revision_id ≡ n) × CountUp (suc n) revs

-- The second alias is another one, or the first is none.
abbrev pub apart : String → RevisionRecord → Bool
apart alias r = str_eq alias "" || not (str_eq r.revision_alias alias)

-- No two revisions have the same alias, unless it is empty.
abbrev pub AliasesDistinct : List RevisionRecord → Type 0
AliasesDistinct [] = Unit
AliasesDistinct (r ∷ revs) = All (λ q. apart r.revision_alias q ≡ true) revs × AliasesDistinct revs

pub CountUp-append :
    (n : ℕ) (revs : List RevisionRecord) (r : RevisionRecord)
    → CountUp n revs
    → r.revision_id ≡ n + length revs
    → CountUp n (revs ++ r ∷ [])
CountUp-append n [] r h e = (omega arith, tt)
CountUp-append n (q ∷ revs) r h e = (h.0, CountUp-append (suc n) revs r h.1 (omega arith))

pub next_revision_id-CountUp :
    (n : ℕ) (revs : List RevisionRecord)
    → CountUp n revs
    → 1 ≤ length revs
    → next_revision_id (last revs) ≡ n + length revs
unfolding next_revision_id
next_revision_id-CountUp n [] h some_rev = absurd (omega arith)
next_revision_id-CountUp n (r ∷ []) h some_rev = omega arith
next_revision_id-CountUp n (r ∷ q ∷ revs) h some_rev =
    omega (arith, next_revision_id-CountUp (suc n) (q ∷ revs) h.1 (omega arith))

-- An alias that is free stands apart from those before it.
free_alias-apart :
    (q r : String)
    → not (str_eq r "") && str_eq q r ≡ false
    → str_eq q "" || not (str_eq r q) ≡ true
free_alias-apart q r e = ground (arith, eq_iff q r, eq_iff r q, eq_iff r "", eq_iff q "")

pub AliasesDistinct-append :
    (revs : List RevisionRecord) (r : RevisionRecord)
    → AliasesDistinct revs
    → not (str_eq r.revision_alias "") && any (aliased r.revision_alias) revs ≡ false
    → AliasesDistinct (revs ++ r ∷ [])
AliasesDistinct-append [] r h e = (tt, tt)
AliasesDistinct-append (q ∷ revs) r h e = (
  All-append (λ p. apart q.revision_alias p ≡ true) revs (r ∷ []) h.0
      (free_alias-apart q.revision_alias r.revision_alias (ground arith), tt),
  AliasesDistinct-append revs r h.1 (ground arith),
)

-- The numbers from `n` on leave out the ones below.
numbered_below :
    (n m : ℕ) (revs : List RevisionRecord)
    → CountUp n revs
    → m < n
    → All (λ r. (r.revision_id == m) ≡ false) revs
numbered_below n m [] h below = tt
numbered_below n m (r ∷ revs) h below =
    (ground arith, numbered_below (suc n) m revs h.1 (omega arith))

module _ (n : ℕ) (alias : String) (change : RevisionRecord → RevisionRecord)
    (number : (r : RevisionRecord) → (change r).revision_id ≡ r.revision_id)
    (name : (r : RevisionRecord) → (change r).revision_alias ≡ alias) where
  pub CountUp-change_first :
      (m : ℕ) (revs : List RevisionRecord)
      → CountUp m revs
      → CountUp m (change_first (numbered n) change revs)
  CountUp-change_first m [] h = tt
  CountUp-change_first m (r ∷ revs) h =
      ground (arith, number r, CountUp-change_first (suc m) revs h.1)

  pub length-change_first :
      (revs : List RevisionRecord) → length (change_first (numbered n) change revs) ≡ length revs
  length-change_first [] = refl
  length-change_first (r ∷ revs) = ground (arith, length-change_first revs)

  -- The changed revision stands apart from a revision with another alias.
  All-apart-change_first :
      (other : String) (revs : List RevisionRecord)
      → str_eq other "" || not (str_eq alias other) ≡ true
      → All (λ q. apart other q ≡ true) revs
      → All (λ q. apart other q ≡ true) (change_first (numbered n) change revs)
  All-apart-change_first other [] e h = tt
  All-apart-change_first other (r ∷ revs) e h = elim (Bool-cases (r.revision_id == n)) [
    | inl here ↦ rw here (rw (name r) e, h.1)
    | inr past ↦ rw past (h.0, All-apart-change_first other revs e h.1)
  ]

  -- The revisions past the changed one have other numbers, so that the test of taken finds the alias.
  untaken-apart :
      (revs : List RevisionRecord)
      → not (str_eq alias "") && any (taken n alias) revs ≡ false
      → All (λ r. (r.revision_id == n) ≡ false) revs
      → All (λ q. apart alias q ≡ true) revs
  untaken-apart [] e h = tt
  untaken-apart (r ∷ revs) e h = (ground (arith, h.0), untaken-apart revs (ground arith) h.1)

  pub AliasesDistinct-change_first :
      (m : ℕ) (revs : List RevisionRecord)
      → CountUp m revs
      → AliasesDistinct revs
      → not (str_eq alias "") && any (taken n alias) revs ≡ false
      → AliasesDistinct (change_first (numbered n) change revs)
  AliasesDistinct-change_first m [] c h e = tt
  AliasesDistinct-change_first m (r ∷ revs) c h e = elim (Bool-cases (r.revision_id == n)) [
    | inl here ↦ rw here (
      rw (name r)
          (untaken-apart revs (ground arith) (numbered_below (suc m) n revs c.1 (ground arith))),
      h.1,
    )
    | inr past ↦ rw past (
      All-apart-change_first r.revision_alias revs
          (free_alias-apart r.revision_alias alias (ground arith)) h.0,
      AliasesDistinct-change_first (suc m) revs c.1 h.1 (ground arith),
    )
  ]

-- With distinct aliases, the first revision with an alias is any that has it.
pub find-aliased :
    (alias : String) (revs : List RevisionRecord) (r : RevisionRecord) (n : ℕ)
    → AliasesDistinct revs
    → find (numbered n) revs ≡ some r
    → r.revision_alias ≡ alias
    → str_eq alias "" ≡ false
    → find (aliased alias) revs ≡ some r
find-aliased alias [] r n h e name named = grind arith
find-aliased alias (q ∷ revs) r n h e name named = elim (Bool-cases (q.revision_id == n)) [
  | inl here ↦ ground (arith, eq_iff q.revision_alias alias)
  | inr past ↦
      let found : find (numbered n) revs ≡ some r = ground arith in
      let other = All-find (λ p. apart q.revision_alias p ≡ true) (numbered n) revs r h.0 found in
      let rest = find-aliased alias revs r n h.1 found name named in
      ground (arith, eq_iff q.revision_alias alias, eq_iff r.revision_alias q.revision_alias)
]
