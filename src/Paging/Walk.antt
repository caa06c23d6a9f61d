-- ===== src/Paging/Walk.antt =====
-- What one page holds, and what a client sees that follows the cursors.
use contents_factory.Common.{
  ℕ, zero, suc, ◌<◌, ◌≤◌, ◌≡◌, refl, sym, ap, ◌∙◌, inl, inr, true, false, Option, none, some, List,
  [], ◌∷◌, ◌++◌, arith, ltb, length, length-take, take, take_all, if◌then◌else◌, subst, Bool-cases,
}
use mathlib.Core.List.{append_assoc}
use contents_factory.Errors.{ok, err, app, app_error, ErrorCode}
use contents_factory.Paging.{
  Parsed, Cursor, Page, Listed, page_limit, last, cursor_of, follow, below_cursor, parse_paging,
  encode_cursor, list_page, walk,
}
use contents_factory.Paging.Order.{
  drop, take-drop, length-drop, take-take, last_split, IsListing, filter_behind,
}

pub page_limit_range : (l : Option Parsed) → (1 ≤ page_limit l) × (page_limit l ≤ 100)
unfolding page_limit
page_limit_range l = omega arith

module _ {A Text : Type 0} ⦃row : Listed A⦄ (encode : Cursor → Text)
    (decode : Text → Option Cursor) where
  -- the page that a list cuts from the rows behind its cursor
  abbrev pub cut : ℕ → List A → Page A Text
  cut n rest = record {
    items = take n rest;
    next_cursor =
        if ltb n (length rest) then encode_cursor encode decode (last (take n rest)) else none;
  }

  cut_page :
      (n : ℕ) (rest : List A)
      → let fetched = take (suc n) rest in
        let has_more = ltb n (length fetched) in
        let page = if has_more then take n fetched else fetched in
        record {
          items = page;
          next_cursor = if has_more then encode_cursor encode decode (last page) else none;
        }
        ≡ cut n rest
  cut_page n rest = elim (Bool-cases (ltb n (length rest))) [
    | inl more ↦
        let longer : ltb n (length (take (suc n) rest)) ≡ true =
          ground (arith, length-take (suc n) rest) in
        rw (longer, more, take-take n rest) refl
    | inr few ↦
        let whole : take (suc n) rest ≡ rest = take_all (suc n) rest (ground arith) in
        let page : take n rest ≡ rest = take_all n rest (ground arith) in rw (whole, few, page) refl
  ]

  -- With a usable cursor or none, a page holds the first rows behind the cursor, as many as the limit
  -- allows (1 to 100, 20 where the query names none), and it has a further cursor exactly when rows
  -- are left over. A cursor that cannot be decoded is refused as INVALID_INPUT, whatever the rows are.
  pub list_page_outcome :
      (limit : Option Parsed) (text : Text) (rows : List A)
      → (list_page encode decode (record { limit = limit; cursor = none }) rows
          ≡ ok (cut (page_limit limit) rows))
        × ((c : Cursor)
            → decode text ≡ some c
            → list_page encode decode (record { limit = limit; cursor = some text }) rows
              ≡ ok (cut (page_limit limit) (below_cursor (some c) rows)))
        × (decode text ≡ none
            → list_page encode decode (record { limit = limit; cursor = some text }) rows
              ≡ err (app (app_error ErrorCode.invalid_input)))
  unfolding list_page parse_paging
  list_page_outcome limit text rows = (
    ap ok (cut_page (page_limit limit) rows),
    (λ c known.
        rw (known, list_page, parse_paging)
          (ap ok (cut_page (page_limit limit) (below_cursor (some c) rows)))),
    λ unknown. rw (unknown, list_page, parse_paging) refl,
  )

  follow_last :
      (next : Text → Option (List A)) (n : ℕ) (rest : List A)
      → ltb n (length rest) ≡ false
      → follow next (ok (cut n rest)) ≡ some rest
  follow_last next n rest done =
      let whole : take n rest ≡ rest = take_all n rest (ground arith) in rw (done, whole) refl

  -- A page that is not the last one ends with a row whose cursor leads on.
  follow_more :
      (next : Text → Option (List A)) (n : ℕ) (rest tail : List A)
      → ltb n (length rest) ≡ true
      → 1 ≤ n
      → ((l : A)
          → (init : List A) → take n rest ≡ init ++ l ∷ []
          → next (encode (cursor_of l)) ≡ some tail)
      → follow next (ok (cut n rest)) ≡ some (take n rest ++ tail)
  unfolding encode_cursor
  follow_more next zero rest tail more positive go = absurd (omega arith)
  follow_more next (suc n) [] tail more positive go = absurd (ground arith)
  follow_more next (suc n) (x ∷ rest) tail more positive go =
      let (init, l, split, end) = last_split x (take n rest) in rw (more, end, go l init split) refl

  module _ (round : (c : Cursor) → decode (encode c) ≡ some c) where
    -- the request that the cursor of a page's last row makes
    next_page :
        (limit : Option Parsed) (l : A) (init rest rows : List A)
        → IsListing rows
        → rows ≡ init ++ l ∷ rest
        → list_page encode decode
            (record { limit = limit; cursor = some (encode (cursor_of l)) })
            rows
          ≡ ok (cut (page_limit limit) rest)
    next_page limit l init rest rows listing split =
        let behind : below_cursor (some (cursor_of l)) rows ≡ rest =
          ap (below_cursor (some (cursor_of l))) split
          ∙ filter_behind init l rest (subst IsListing split listing) in
        (list_page_outcome limit (encode (cursor_of l)) rows).1 (cursor_of l) (round (cursor_of l))
        ∙ ap (λ xs. ok (cut (page_limit limit) xs)) behind

    regroup :
        (n : ℕ) (l : A) (init init' rest : List A)
        → take n rest ≡ init' ++ l ∷ []
        → init ++ rest ≡ (init ++ init') ++ l ∷ drop n rest
    regroup n l init init' rest split =
        ap (init ++◌) (
          sym (take-drop n rest)
          ∙ ap (◌++ drop n rest) split
          ∙ append_assoc init' (l ∷ []) (drop n rest))
        ∙ sym (append_assoc init init' (l ∷ drop n rest))

    -- the walk from a cursor, or from the start, that leaves `rest`
    walk_from :
        (limit : Option Parsed) (fuel : ℕ) (cursor : Option Text) (init rest rows : List A)
        → IsListing rows
        → rows ≡ init ++ rest
        → list_page encode decode (record { limit = limit; cursor = cursor }) rows
          ≡ ok (cut (page_limit limit) rest)
        → length rest < fuel
        → walk encode decode fuel (record { limit = limit; cursor = cursor }) rows ≡ some rest
    walk_from limit zero cursor init rest rows listing split page few = absurd (omega arith)
    walk_from limit (suc fuel) cursor init rest rows listing split page few =
        let next : Text → Option (List A) =
          λ text. walk encode decode fuel (record { limit = limit; cursor = some text }) rows in
        let n = page_limit limit in
        elim (Bool-cases (ltb n (length rest))) [
          | inr done ↦ ap (follow next) page ∙ follow_last next n rest done
          | inl more ↦
              let left : length (drop n rest) < fuel =
                omega (arith, length-drop n rest (ground arith), (page_limit_range limit).0) in
              let go = λ (l : A) (init' : List A) (end : take n rest ≡ init' ++ l ∷ []).
                let whole = split ∙ regroup n l init init' rest end in
                walk_from limit fuel (some (encode (cursor_of l))) ((init ++ init') ++ l ∷ [])
                  (drop n rest) rows listing
                  (whole ∙ sym (append_assoc (init ++ init') (l ∷ []) (drop n rest)))
                  (next_page limit l (init ++ init') (drop n rest) rows listing whole) left in
              ap (follow next) page
              ∙ follow_more next n rest (drop n rest) more (page_limit_range limit).0 go
              ∙ ap some (take-drop n rest)
        ]

    -- A client that starts without a cursor and follows the cursors it is given gets every row of the
    -- list once, in the query's order, whatever limit it asks for, and is done after at most one request
    -- more than there are rows. It holds where no two rows have been created in the same millisecond and
    -- an encoded cursor is decoded to itself; the list does not change meanwhile.
    pub walk_complete :
        (limit : Option Parsed) (rows : List A) (fuel : ℕ)
        → IsListing rows
        → length rows < fuel
        → walk encode decode fuel (record { limit = limit; cursor = none }) rows ≡ some rows
    walk_complete limit rows fuel listing few =
        walk_from limit fuel none [] rows rows listing refl
          (list_page_outcome limit (encode (record { created_at = 0; id = 0 })) rows).0 few
