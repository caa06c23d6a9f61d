-- ===== src/Paging/Tests.antt =====
-- A list of three rows that is read in pages.
use contents_factory.Common.{ℕ, ◌≡◌, refl, arith, Option, none, some, List, [], ◌∷◌, nat_eq}
use contents_factory.Paging.{
  Cursor, Listed, Parsed, natural, page_limit, parse_paging, encode_cursor, list_page, walk,
  is_below, cursor_of,
}
use contents_factory.Paging.Order.{IsListing}
use contents_factory.Paging.Walk.{walk_complete}

-- a row: when it was created, in microseconds, and its id
record Stamped : Type 0 where
  at : ℕ
  number : ℕ

instance abbrev stamped_listed : Listed Stamped
stamped_listed = record { created_us = λ s. s.at; row_id = λ s. s.number }

abbrev row_of : ℕ → ℕ → Stamped
row_of at number = record { at = at; number = number }

abbrev three_rows : List Stamped
three_rows = row_of 7000450 3 ∷ row_of 5000010 9 ∷ row_of 4000999 1 ∷ []

abbrev plain : Cursor → Cursor
plain c = c

abbrev pairs : Option Parsed
pairs = some (natural 2)

abbrev second : Cursor
second = record { created_at = 5000; id = 9 }

-- two rows of one millisecond at the end of a page: the older one is never shown
close_rows_are_lost :
    walk plain some 9
      (record { limit = some (natural 1); cursor = none })
      (row_of 7000450 3 ∷ row_of 7000200 2 ∷ [])
    ≡ some (row_of 7000450 3 ∷ [])
unfolding list_page parse_paging page_limit encode_cursor cursor_of is_below
close_rows_are_lost = refl

three_rows-IsListing : IsListing three_rows
three_rows-IsListing = (
  ((omega arith, omega arith), ((omega arith, omega arith), tt)),
  (((omega arith, omega arith), tt), (tt, tt)),
)

walk_complete_example :
    walk plain some 4 (record { limit = pairs; cursor = none }) three_rows ≡ some three_rows
walk_complete_example =
    walk_complete plain some (λ c. refl) pairs three_rows 4 three_rows-IsListing (omega arith)
