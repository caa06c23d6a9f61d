-- ===== src/Paging.antt =====
-- apps/api/src/common/pagination.ts and the lists that use it (apps/api/src/order/order.service.ts,
-- apps/api/src/content/content.service.ts, apps/api/src/asset/asset.service.ts and
-- apps/api/src/task/task.service.ts). A list is modelled from the rows that pass its other filters, in
-- the order of its query. The opaque text of a cursor is a parameter: `encode` is the base64url of
-- the JSON, `decode` parses it and checks its shape.
pub mod Order
pub mod Walk
mod Tests
use contents_factory.Common.{
  ℕ, zero, suc, ◌+◌, ◌*◌, ◌/◌, min, max, Bool, true, false, Option, none, some, List, [], ◌∷◌, ◌++◌,
  ◌&&◌, ◌||◌, ◌==◌, nat_eq, ltb, if◌then◌else◌, filter, length, take, get_or,
}
use contents_factory.Errors.{
  ErrorCode, Thrown, app, app_error, default_failure_class, Result, ok, err,
}

-- What `Number(text)` gives for a whole number or for a text that is none.
pub data Parsed : Type 0 where
  not_a_number : Parsed
  below_zero : Parsed
  natural : ℕ → Parsed

-- A cursor: milliseconds and an id.
pub record Cursor : Type 0 where
  pub created_at : ℕ
  pub id : ℕ

pub record ListQuery (Text : Type 0) : Type 0 where
  pub limit : Option Parsed
  pub cursor : Option Text

pub record CursorPage : Type 0 where
  pub limit : ℕ
  pub cursor : Option Cursor

pub record Page (A : Type 0) (Text : Type 0) : Type 0 where
  pub items : List A
  pub next_cursor : Option Text

-- The columns a list is ordered by; the database keeps microseconds.
pub record Listed (A : Type 0) : Type 0 where
  pub created_us : A → ℕ
  pub row_id : A → ℕ

abbrev pub default_limit : ℕ
default_limit = 20

-- `Number(query.limit ?? defaultLimit) || defaultLimit`
abbrev pub given_limit : Option Parsed → ℕ
given_limit none = default_limit
given_limit (some not_a_number) = default_limit
given_limit (some below_zero) = 0
given_limit (some (natural zero)) = default_limit
given_limit (some (natural (suc n))) = suc n

unfoldable pub page_limit : Option Parsed → ℕ
page_limit limit = min 100 (max 1 (given_limit limit))

abbrev pub last : {A : Type 0} → List A → Option A
last [] = none
last (x ∷ []) = some x
last (x ∷ y ∷ ys) = last (y ∷ ys)

module _ {A : Type 0} ⦃row : Listed A⦄ where
  -- `toISOString()` cuts the microseconds off
  unfoldable pub cursor_of : A → Cursor
  cursor_of a = record { created_at = row.created_us a / 1000; id = row.row_id a }

  -- `(created_at, id) < (:cAt, :cId)`
  unfoldable pub is_below : Cursor → A → Bool
  is_below c a =
      let at = c.created_at * 1000 in
      ltb (row.created_us a) at || (row.created_us a == at && ltb (row.row_id a) c.id)

  abbrev pub below_cursor : Option Cursor → List A → List A
  below_cursor none rows = rows
  below_cursor (some c) rows = filter (is_below c) rows

-- the items of a page, then what the requests behind its cursor give
abbrev pub follow :
    {A Text : Type 0} → (Text → Option (List A)) → Result (Page A Text) → Option (List A)
follow next (err e) = none
follow next (ok page) = elim page.next_cursor [
  | none ↦ some page.items
  | some text ↦ elim (next text) [ none ↦ none | some rest ↦ some (page.items ++ rest) ]
]

module _ {Text : Type 0} (encode : Cursor → Text) (decode : Text → Option Cursor) where
  unfoldable pub parse_paging : ListQuery Text → Result CursorPage
  unfolding page_limit
  parse_paging q = elim q.cursor [
    | none ↦ ok (record { limit = page_limit q.limit; cursor = none })
    | some text ↦ elim (decode text) [
      | some c ↦ ok (record { limit = page_limit q.limit; cursor = some c })
      | none ↦ err (app (app_error ErrorCode.invalid_input))
    ]
  ]

  unfoldable pub encode_cursor : {A : Type 0} → ⦃row : Listed A⦄ → Option A → Option Text
  unfolding cursor_of
  encode_cursor none = none
  encode_cursor (some a) = some (encode (cursor_of a))

  -- one page of a list
  unfoldable pub list_page :
      {A : Type 0} → ⦃row : Listed A⦄ → ListQuery Text → List A → Result (Page A Text)
  unfolding parse_paging encode_cursor is_below
  list_page q rows = elim (parse_paging q) [
    | err e ↦ err e
    | ok p ↦
        let fetched = take (suc p.limit) (below_cursor p.cursor rows) in
        let has_more = ltb p.limit (length fetched) in
        let page = if has_more then take p.limit fetched else fetched in
        ok (record {
          items = page;
          next_cursor = if has_more then encode_cursor (last page) else none;
        })
  ]

  -- a client that follows the cursors and joins the pages, with `n` requests at most
  abbrev pub walk : {A : Type 0} → ⦃row : Listed A⦄ → ℕ → ListQuery Text → List A → Option (List A)
  walk zero q rows = none
  walk (suc n) q rows =
      follow (λ text. walk n (record { limit = q.limit; cursor = some text }) rows)
        (list_page q rows)
