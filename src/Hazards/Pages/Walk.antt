-- ===== src/Hazards/Pages/Walk.antt =====
-- A client that follows the cursors from page to page.
use mathlib.Core.Option
use geo_hazard.Base.{
  ℕ, zero, suc, ◌+◌, ◌≤◌, ◌<◌, ◌⊎◌, ◌≡◌, refl, sym, ap, subst, ◌∙◌, Bool, true, false, ◌&&◌, Option,
  none, some, [], ◌∷◌, ◌++◌, arith, All, All-map, leb, take, length, Bool-cases, inl, inr,
  length-append, leb→le, le→leb,
}
use geo_hazard.Base.Query.{select_where, order_by}
use geo_hazard.Base.Query.Rows.{select_where-select_where, All-select_where}
use geo_hazard.Base.Query.Order.{order_by-All}
use geo_hazard.Hazards.Model.{HazardEvent, EventTable}
use geo_hazard.Hazards.Pages.{
  Cursor, cursor_of, tuple_before, after_cursor, newest_first, last_row, rows_after, cut_page,
  with_cursor, list_page,
}
use geo_hazard.Hazards.Pages.Keyset.{
  All-middle, DistinctIds, Strict, order_by-Strict, select_where-DistinctIds, select_where-order_by,
  select_where-behind,
}

tuple_before_trans :
    (a b c : Cursor) → tuple_before a b ≡ true → tuple_before b c ≡ true → tuple_before a c ≡ true
tuple_before_trans a b c h k = ground (arith, h, k)

and_right : (l b : Bool) → (l && b) ≡ true → b ≡ true
and_right true b h = h
and_right false b h = cc

absorb : (l b n : Bool) → (n ≡ true → b ≡ true) → ((l && b) && n) ≡ (l && n)
absorb true true n h = refl
absorb true false true h = h refl
absorb true false false h = refl
absorb false b n h = refl

two_more : (n : ℕ) → suc n + 1 ≡ suc (suc n)
two_more n = omega arith

not_leb→lt : (a b : ℕ) → leb a b ≡ false → b < a
not_leb→lt a b h = ground arith

module _ {G F : Type 0} where
  -- A page, and where it has a cursor the pages from there.
  abbrev pub joined_pages :
      Option (EventTable G F × Option Cursor)
      → (Cursor → Option (EventTable G F))
      → Option (EventTable G F)
  joined_pages none rest = none
  joined_pages (some (page, none)) rest = some page
  joined_pages (some (page, some k)) rest = Option.map (λ rows. page ++ rows) (rest k)

  -- The pages from a cursor on, put together, with fuel.
  unfoldable pub walk :
      ℕ → (HazardEvent G F → Bool) → ℕ → Option Cursor → EventTable G F → Option (EventTable G F)
  walk zero listed limit cursor t = none
  walk (suc f) listed limit cursor t =
      joined_pages (list_page listed limit cursor t) (λ k. walk f listed limit (some k) t)

  last_row-snoc : (xs : EventTable G F) (a : HazardEvent G F) → last_row (xs ++ a ∷ []) ≡ some a
  last_row-snoc [] a = refl
  last_row-snoc (x ∷ []) a = refl
  last_row-snoc (x ∷ y ∷ xs) a = last_row-snoc (y ∷ xs) a

  append_middle :
      (xs : EventTable G F) (a : HazardEvent G F) (ys : EventTable G F)
      → (xs ++ a ∷ []) ++ ys ≡ xs ++ a ∷ ys
  append_middle [] a ys = refl
  append_middle (x ∷ xs) a ys = ap (λ zs. x ∷ zs) (append_middle xs a ys)

  -- The row at a place, with what stands before and behind it.
  split_at :
      (n : ℕ) (rows : EventTable G F)
      → suc n < length rows
      → (xs : EventTable G F) × (a : HazardEvent G F) × (ys : EventTable G F) × (rows
          ≡ xs ++ a ∷ ys)
        × (take (suc n) (take (suc (suc n)) rows) ≡ xs ++ a ∷ [])
        × (leb (length (take (suc (suc n)) rows)) (suc n) ≡ false)
  split_at zero [] h = absurd (omega arith)
  split_at zero (x ∷ []) h = absurd (omega arith)
  split_at zero (x ∷ y ∷ rows) h = ([], x, y ∷ rows, refl, refl, ground arith)
  split_at (suc n) [] h = absurd (omega arith)
  split_at (suc n) (x ∷ rows) h =
      let (xs, a, ys, whole, front, more) = split_at n rows (omega arith) in
      (x ∷ xs, a, ys, ap (λ zs. x ∷ zs) whole, ap (λ zs. x ∷ zs) front, ground (arith, more))

  take_whole : (n : ℕ) (rows : EventTable G F) → length rows ≤ n → take n rows ≡ rows
  take_whole zero [] h = refl
  take_whole zero (x ∷ rows) h = absurd (omega arith)
  take_whole (suc n) [] h = refl
  take_whole (suc n) (x ∷ rows) h = ap (λ zs. x ∷ zs) (take_whole n rows (omega arith))

  select_where-ext :
      (p q : HazardEvent G F → Bool) (t : EventTable G F)
      → ((e : HazardEvent G F) → p e ≡ q e)
      → select_where p t ≡ select_where q t
  unfolding select_where
  select_where-ext p q [] h = refl
  select_where-ext p q (e ∷ t) h = ground (arith, h e, select_where-ext p q t h)

  after_cursor_trans :
      (c : Option Cursor) (a e : HazardEvent G F)
      → after_cursor c a ≡ true
      → newest_first a e ≡ true
      → after_cursor c e ≡ true
  after_cursor_trans none a e h k = refl
  after_cursor_trans (some c) a e h k = tuple_before_trans (cursor_of e) (cursor_of a) c k h

  -- The rows after a row of the list are those behind it.
  rows_after-row :
      (listed : HazardEvent G F → Bool) (c : Option Cursor) (t : EventTable G F)
      (xs : EventTable G F) (a : HazardEvent G F) (ys : EventTable G F)
      → DistinctIds t
      → rows_after listed c t ≡ xs ++ a ∷ ys
      → rows_after listed (some (cursor_of a)) t ≡ ys
  rows_after-row listed c t xs a ys d h =
      let found = select_where (λ e. listed e && after_cursor c e) t in
      let distinct = select_where-DistinctIds (λ e. listed e && after_cursor c e) t d in
      let seen =
        All-middle (λ e. after_cursor c e ≡ true) xs a ys
          (subst (All (λ e. after_cursor c e ≡ true)) h (
            order_by-All newest_first _ found (
              All-map _ _ found (λ e k. and_right (listed e) (after_cursor c e) k)
                (All-select_where (λ e. listed e && after_cursor c e) t)))) in
      ap (order_by newest_first) (
        sym (
          select_where-select_where (newest_first a) (λ e. listed e && after_cursor c e) t
          ∙ select_where-ext _ _ t (λ e.
            absorb (listed e) (after_cursor c e) (newest_first a e)
              (after_cursor_trans c a e seen))))
      ∙ sym (select_where-order_by (newest_first a) found distinct)
      ∙ ap (select_where (newest_first a)) h
      ∙ select_where-behind xs a ys (subst Strict h (order_by-Strict found distinct))

  shorter :
      (xs : EventTable G F) (a : HazardEvent G F) (ys rows rest : EventTable G F)
      → rows ≡ xs ++ a ∷ ys
      → rest ≡ ys
      → suc (length rest) ≤ length rows
  shorter xs a ys rows rest whole same =
      omega (arith, ap length whole, ap length same, length-append xs (a ∷ ys))

  cut_page-whole :
      (n : ℕ) (rows : EventTable G F)
      → length rows ≤ suc n
      → cut_page (suc n) (take (suc n + 1) rows) ≡ some (rows, none)
  cut_page-whole n rows h =
      rw (take_whole (suc n + 1) rows (omega (arith, h)), le→leb (length rows) (suc n) h) refl

  cut_page-part :
      (n : ℕ) (rows xs : EventTable G F) (a : HazardEvent G F)
      → take (suc n) (take (suc (suc n)) rows) ≡ xs ++ a ∷ []
      → leb (length (take (suc (suc n)) rows)) (suc n) ≡ false
      → cut_page (suc n) (take (suc n + 1) rows) ≡ some (xs ++ a ∷ [], some (cursor_of a))
  cut_page-part n rows xs a front more =
      subst (λ m. cut_page (suc n) (take m rows) ≡ some (xs ++ a ∷ [], some (cursor_of a)))
        (sym (two_more n))
        (rw more (
          subst (λ page. with_cursor page ≡ some (xs ++ a ∷ [], some (cursor_of a))) (sym front)
            (rw (with_cursor, last_row-snoc xs a) refl)))

  -- One page: all the rows that are left, or a part of them up to the row of its cursor.
  list_page-cases :
      (listed : HazardEvent G F → Bool) (n : ℕ) (c : Option Cursor) (t : EventTable G F)
      → DistinctIds t
      → (list_page listed (suc n) c t ≡ some (rows_after listed c t, none))
        ⊎ ((page : EventTable G F) × (a : HazardEvent G F) × (list_page listed (suc n) c t
              ≡ some (page, some (cursor_of a)))
            × (page ++ rows_after listed (some (cursor_of a)) t ≡ rows_after listed c t)
            × (suc (length (rows_after listed (some (cursor_of a)) t))
                ≤ length (rows_after listed c t)))
  unfolding list_page
  list_page-cases listed n c t d =
      let rows = rows_after listed c t in
      elim (Bool-cases (leb (length rows) (suc n))) [
        | inl e ↦ inl (cut_page-whole n rows (leb→le (length rows) (suc n) e))
        | inr e ↦
            let (xs, a, ys, whole, front, more) =
              split_at n rows (not_leb→lt (length rows) (suc n) e) in
            let rest = rows_after-row listed c t xs a ys d whole in
            inr (
              xs ++ a ∷ [],
              a,
              cut_page-part n rows xs a front more,
              ap (λ zs. (xs ++ a ∷ []) ++ zs) rest ∙ append_middle xs a ys ∙ sym whole,
              shorter xs a ys rows _ whole rest,
            )
      ]

  -- A client that starts at a cursor and follows the cursors of the pages gets the rows after it,
  -- each once and in order, whatever the limit of a page, one at least. As many pages as rows and
  -- one more are enough.
  pub walk_all :
      (f : ℕ) (listed : HazardEvent G F → Bool) (limit : ℕ) (c : Option Cursor) (t : EventTable G F)
      → 1 ≤ limit
      → DistinctIds t
      → length (rows_after listed c t) < f
      → walk f listed limit c t ≡ some (rows_after listed c t)
  unfolding walk
  walk_all zero listed limit c t l d h = absurd (omega arith)
  walk_all (suc f) listed zero c t l d h = absurd (omega arith)
  walk_all (suc f) listed (suc n) c t l d h = elim (list_page-cases listed n c t d) [
    | inl e ↦ rw e refl
    | inr (page, a, e, whole, less) ↦ rw e (
        ap (Option.map (λ rows. page ++ rows))
          (walk_all f listed (suc n) (some (cursor_of a)) t l d (omega (arith, less, h)))
        ∙ ap some whole)
  ]
