-- ===== src/Paging/Order.antt =====
-- Lists in the order of their query, and what a cursor leaves of them.
use contents_factory.Common.{
  ℕ, zero, suc, ◌+◌, ◌/◌, ◌<◌, ◌≤◌, ◌≡◌, ◌≢◌, refl, ap, true, false, some, List, [], ◌∷◌, ◌++◌,
  arith, nat_eq, filter, length, take, All,
}
use contents_factory.Paging.{Cursor, Listed, last, cursor_of, is_below}

-- the rest of a list after its first `n` members
abbrev pub drop : {A : Type 0} → ℕ → List A → List A
drop zero xs = xs
drop (suc n) [] = []
drop (suc n) (x ∷ xs) = drop n xs

pub take-drop : {A : Type 0} (n : ℕ) (xs : List A) → take n xs ++ drop n xs ≡ xs
take-drop zero xs = refl
take-drop (suc n) [] = refl
take-drop (suc n) (x ∷ xs) = ap (◌∷◌ x) (take-drop n xs)

pub length-drop :
    {A : Type 0} (n : ℕ) (xs : List A) → n ≤ length xs → n + length (drop n xs) ≡ length xs
length-drop zero xs h = omega arith
length-drop (suc n) [] h = omega arith
length-drop (suc n) (x ∷ xs) h = omega (arith, length-drop n xs (omega arith))

pub take-take : {A : Type 0} (n : ℕ) (xs : List A) → take n (take (suc n) xs) ≡ take n xs
take-take zero xs = refl
take-take (suc n) [] = refl
take-take (suc n) (x ∷ xs) = ap (◌∷◌ x) (take-take n xs)

-- A nonempty list, taken apart at its end.
pub last_split :
    {A : Type 0} (x : A) (xs : List A)
    → (init : List A) × (l : A) × (x ∷ xs ≡ init ++ l ∷ []) × (last (x ∷ xs) ≡ some l)
last_split x [] = ([], x, refl, refl)
last_split x (y ∷ ys) =
    let (init, l, split, end) = last_split y ys in (x ∷ init, l, ap (◌∷◌ x) split, end)

module _ {A : Type 0} ⦃row : Listed A⦄ where
  -- `a` stands before `b` in the query's order, `ORDER BY created_at DESC, id DESC`, and the two
  -- are not of the same millisecond.
  abbrev pub IsBefore : A → A → Type 0
  IsBefore a b =
      (row.created_us b < row.created_us a) × (row.created_us b / 1000 ≢ row.created_us a / 1000)

  abbrev pub IsListing : List A → Type 0
  IsListing [] = Unit
  IsListing (a ∷ rows) = All (IsBefore a) rows × IsListing rows

  below_of_before : (a b : A) → IsBefore a b → is_below (cursor_of a) b ≡ true
  unfolding is_below cursor_of
  below_of_before a b h = ground (arith, h.0, h.1)

  above_of_before : (a b : A) → IsBefore a b → is_below (cursor_of b) a ≡ false
  unfolding is_below cursor_of
  above_of_before a b h = ground (arith, h.0, h.1)

  above_self : (a : A) → is_below (cursor_of a) a ≡ false
  unfolding is_below cursor_of
  above_self a = ground arith

  filter_whole :
      (c : Cursor) (rows : List A)
      → All (λ b. is_below c b ≡ true) rows
      → filter (is_below c) rows ≡ rows
  filter_whole c [] h = refl
  filter_whole c (b ∷ rows) h = rw (h.0, filter_whole c rows h.1) refl

  rows_under_cursor :
      (a : A) (rows : List A)
      → All (IsBefore a) rows
      → All (λ b. is_below (cursor_of a) b ≡ true) rows
  rows_under_cursor a [] h = tt
  rows_under_cursor a (b ∷ rows) h = (below_of_before a b h.0, rows_under_cursor a rows h.1)

  order_of_member :
      (a l : A) (init rest : List A) → All (IsBefore a) (init ++ l ∷ rest) → IsBefore a l
  order_of_member a l [] rest h = h.0
  order_of_member a l (x ∷ init) rest h = order_of_member a l init rest h.1

  -- The cursor of a row leaves the rows behind it.
  pub filter_behind :
      (init : List A) (l : A) (rest : List A)
      → IsListing (init ++ l ∷ rest)
      → filter (is_below (cursor_of l)) (init ++ l ∷ rest) ≡ rest
  filter_behind [] l rest h =
      rw (above_self l, filter_whole (cursor_of l) rest (rows_under_cursor l rest h.0)) refl
  filter_behind (a ∷ init) l rest h =
      rw (above_of_before a l (order_of_member a l init rest h.0), filter_behind init l rest h.1)
        refl
