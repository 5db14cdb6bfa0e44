-- ===== src/Core/Paging/Pages.antt =====
-- What Paginate selects.
use sakumock.Core.Paging.{Page, paginate}
use sakumock.Prelude.{
  ◌+◌, ◌-◌, ◌<◌, ◌≤◌, ◌≡◌, List, none, some, arith, ◌==◌, if◌then◌else◌, length, take, drop,
  max_int64, take_of_length-le, drop_of_length-le, length-drop,
}

module _ {A : Type 0} where
  -- The page is what `From` leaves of the list, cut to `Count` items where `Count` is not 0.
  pub page : List A → Page → List A
  page items p = if p.count == 0 then drop p.from items else take p.count (drop p.from items)

  -- While From + Count is an int, Paginate does not fail, and returns the items from index From on,
  -- at most Count of them where Count is not 0.
  pub paginate-eq-page :
      (items : List A) (p : Page)
      → p.from + p.count ≤ max_int64
      → paginate items p ≡ some (page items p)
  unfolding paginate page
  paginate-eq-page items p h = ground (
    arith,
    take_of_length-le p.count (drop p.from items),
    take_of_length-le (length items - p.from) (drop p.from items),
    drop_of_length-le p.from items,
    length-drop p.from items,
  )

  -- Where From + Count exceeds an int, From is an index of the list, and neither number exceeds an
  -- int, Paginate panics.
  paginate_panics :
      (items : List A) (p : Page)
      → p.from < length items
      → p.from ≤ max_int64
      → p.count ≤ max_int64
      → max_int64 < p.from + p.count
      → paginate items p ≡ none
  unfolding paginate
  paginate_panics items p h k c o = ground arith
