-- ===== src/Core/Paging.antt =====
-- core/paging.go: the Count and From parameters of a list endpoint, and the page that they select.
pub mod Pages
use sakumock.Core.Decimal.{parse_int}
use sakumock.Prelude.{
  ℕ, ◌-◌, String, List, [], Bool, Option, none, some, ltb, leb, ◌==◌, str_eq, if◌then◌else◌, ℤ, pos,
  negsuc, add64, Result, ok, err, length, take, drop, min,
}

-- Neither field is negative after ParsePage.
pub record Page : Type 0 where
  pub from : ℕ
  pub count : ℕ

pub data PageError : Type 0 where
  invalid_from invalid_count : PageError

-- A parameter that is absent, or empty, leaves the field at 0.
parse_field : PageError → String → Result PageError ℕ
parse_field e v =
    if str_eq v ""
    then ok 0
    else elim (parse_int v) [ none ↦ err e | some n ↦ elim n [ pos k ↦ ok k | negsuc k ↦ err e ] ]

-- ParsePage, at what q.Get("From") and q.Get("Count") return
unfoldable pub parse_page : String → String → Result PageError Page
unfolding parse_field
parse_page from count = elim (parse_field invalid_from from) [
  | err e ↦ err e
  | ok f ↦ elim (parse_field invalid_count count) [
    | err e ↦ err e
    | ok c ↦ ok (record { from = f; count = c })
  ]
]

-- min(end, length) of two ints
min_int : ℤ → ℕ → ℤ
min_int (pos a) b = pos (min a b)
min_int (negsuc a) b = negsuc a

module _ {ℓ} {A : Type ℓ} where
  -- items[from:end]; `none` is the panic of a slice whose bounds are out of range.
  slice : List A → ℕ → ℤ → Option (List A)
  slice items from (negsuc e) = none
  slice items from (pos e) =
      if leb from e
      then (if leb e (length items) then some (take (e - from) (drop from items)) else none)
      else none

  -- Paginate; From + Count is a sum of ints.
  pub paginate : List A → Page → Option (List A)
  unfolding min_int slice
  paginate items p =
      if leb (length items) p.from
      then some []
      else slice items p.from (
          if ltb 0 p.count
          then min_int (add64 p.from p.count) (length items)
          else pos (length items))
