-- ===== src/PositionSync/Quiet.antt =====
-- A sync of an account that has not changed announces nothing.
use text.Mathlib.TextPositions.{eq_refl}
use mathlib.Core.Path.{subst}
use quanteo.Base.{
  ◌≡◌, ◌∙◌, ◌≤◌, refl, ap, String, Bool, true, false, none, some, List, [], ◌∷◌, ◌++◌, arith,
  str_eq, eq_iff, count_if, count_if-append, All, map, ◌≤◌, inl, inr, Bool-cases, Option-cases,
}
use quanteo.Float.{Float, nought}
use quanteo.Store.{PositionRow, find, select, update_where}
use quanteo.PositionSync.{
  BalanceItem, item_changes, change_of, closing, has_key, of_env, new_position, refreshed,
  upsert_position, upsert_positions, is_live, is_stale, emptied, close_all, mirror,
}
use quanteo.Store.Keys.{find-count, count-find}
use quanteo.PositionSync.Booking.{named, item_of}
use quanteo.PositionSync.Mirror.{
  any_named, any_named-stale, stale_row, find_symbol, is_live-some, mirror-expected,
}

module _ {R : Type 0} where
  count-update_where :
      (c e : String) (p : PositionRow R → Bool) (g : PositionRow R → PositionRow R)
      → ((r : PositionRow R) → (g r).symbol ≡ r.symbol)
      → ((r : PositionRow R) → (g r).env ≡ r.env)
      → (rows : List (PositionRow R))
      → count_if (has_key c e) (update_where p g rows) ≡ count_if (has_key c e) rows
  unfolding update_where
  count-update_where c e p g same_symbol same_env [] = refl
  count-update_where c e p g same_symbol same_env (x ∷ xs) = ground (
    arith,
    count-update_where c e p g same_symbol same_env xs,
    ap (λ t. str_eq t c) (same_symbol x),
    ap (λ t. str_eq t e) (same_env x),
  )

  -- UNIQUE(symbol, env) for the rows of one environment.
  abbrev pub IsUnique : String → List (PositionRow R) → Type 0
  IsUnique env rows = (c : String) → count_if (has_key c env) rows ≤ 1

  upsert_position-IsUnique :
      (env now : String) (i : BalanceItem R) (rows : List (PositionRow R))
      → IsUnique env rows
      → IsUnique env (upsert_position env now i rows)
  unfolding upsert_position
  upsert_position-IsUnique env now i rows unique c =
      elim (Option-cases (find (has_key i.symbol env) rows)) [
        | inr (r, h) ↦ ground (
          arith,
          count-update_where c env (has_key i.symbol env) (refreshed now i) (λ x. refl) (λ x. refl)
              rows,
          unique c,
        )
        | inl h ↦
            let grown = count_if-append (has_key c env) rows (new_position env now i ∷ []) in
            let fresh = find-count (has_key i.symbol env) rows h in
            elim (Bool-cases (str_eq i.symbol c)) [
              | inr other ↦ ground (arith, grown, unique c)
              | inl same ↦
                  let none_yet =
                    subst (λ d. count_if (has_key d env) rows ≡ 0) ((eq_iff i.symbol c).0 same)
                      fresh in
                  ground (arith, grown, none_yet)
            ]
      ]

  upsert_positions-IsUnique :
      (env now : String) (items : List (BalanceItem R)) (rows : List (PositionRow R))
      → IsUnique env rows
      → IsUnique env (upsert_positions env now items rows)
  unfolding upsert_positions
  upsert_positions-IsUnique env now [] rows unique = unique
  upsert_positions-IsUnique env now (i ∷ is) rows unique =
      upsert_positions-IsUnique env now is (upsert_position env now i rows)
        (upsert_position-IsUnique env now i rows unique)

  none_left : (rs : List (PositionRow R)) → ((c : String) → any_named c rs ≡ false) → rs ≡ []
  none_left [] h = refl
  none_left (r ∷ rs) h = absurd (ground (arith, h r.symbol, eq_refl r.symbol))

  find-of_env :
      (c env : String) (rows : List (PositionRow R))
      → find (has_key c env) (select (of_env env) rows) ≡ find (has_key c env) rows
  unfolding find select
  find-of_env c env [] = refl
  find-of_env c env (r ∷ rs) = ground (arith, find-of_env c env rs)

module _ {R : Type 0} ⦃f : Float R⦄ where
  close_all-IsUnique :
      (env now : String) (stale rows : List (PositionRow R))
      → IsUnique env rows
      → IsUnique env (close_all env now stale rows)
  unfolding close_all
  close_all-IsUnique env now [] rows unique = unique
  close_all-IsUnique env now (r ∷ rs) rows unique =
      close_all-IsUnique env now rs (update_where (has_key r.symbol env) (emptied now) rows) (λ c.
        ground (
          arith,
          count-update_where c env (has_key r.symbol env) (emptied now) (λ x. refl) (λ x. refl)
              rows,
          unique c,
        ))

  -- A sync keeps the uniqueness of the rows, which INSERT relies on.
  pub mirror-IsUnique :
      (env now : String) (items : List (BalanceItem R)) (rows : List (PositionRow R))
      → IsUnique env rows
      → IsUnique env (mirror env now items rows).0
  unfolding mirror
  mirror-IsUnique env now items rows unique =
      close_all-IsUnique env now (select (is_stale items) (select (of_env env) rows))
        (upsert_positions env now items rows) (upsert_positions-IsUnique env now items rows unique)

module _ {R : Type 0} where
  abbrev Own : List (BalanceItem R) → List (BalanceItem R) → Type 0
  Own items = All (λ i. item_of i.symbol items ≡ some i)

  Own-later :
      (h : BalanceItem R) (t xs : List (BalanceItem R))
      → ((c : String) → count_if (named c) (h ∷ t) ≤ 1)
      → Own t xs
      → Own (h ∷ t) xs
  unfolding find
  Own-later h t [] once own = tt
  Own-later h t (x ∷ xs) once (mine, own) = (
    ground (arith, once x.symbol, count-find (named x.symbol) t x mine),
    Own-later h t xs once own,
  )

  Own-self :
      (items : List (BalanceItem R))
      → ((c : String) → count_if (named c) items ≤ 1)
      → Own items items
  unfolding find
  Own-self [] once = tt
  Own-self (i ∷ is) once = (
    ground (arith, eq_refl i.symbol),
    Own-later i is is once (Own-self is (λ c. ground (arith, once c))),
  )

module _ {R : Type 0} ⦃f : Float R⦄ where
  -- The account lists each symbol once, and its numbers equal themselves: none is NaN.
  pub record IsAccount (items : List (BalanceItem R)) : Type 0 where
    pub once : (c : String) → count_if (named c) items ≤ 1
    pub no_nan : All (λ i. (f.eq i.qty i.qty ≡ true) × (f.eq i.avg_price i.avg_price ≡ true)) items

  module _ (env now : String) (items : List (BalanceItem R)) (rows : List (PositionRow R)) where
    abbrev synced : List (PositionRow R)
    synced = (mirror env now items rows).0

    unchanged :
        (i : BalanceItem R)
        → IsAccount items
        → IsUnique env rows
        → item_of i.symbol items ≡ some i
        → (f.eq i.qty i.qty ≡ true)
        → (f.eq i.avg_price i.avg_price ≡ true)
        → change_of (find (has_key i.symbol env) (select (of_env env) synced)) i ≡ none
    unchanged i account unique own qty_eq price_eq =
        let row =
          find-of_env i.symbol env synced
          ∙ mirror-expected i.symbol env env now items rows (account.once i.symbol)
              (unique i.symbol) in
        elim (Option-cases (find (has_key i.symbol env) rows)) [
          | inl h ↦ ground (arith, row, own, h, qty_eq, price_eq, eq_refl env)
          | inr (r, h) ↦ ground (arith, row, own, h, qty_eq, price_eq, eq_refl env)
        ]

    quiet_items :
        (is : List (BalanceItem R))
        → IsAccount items
        → IsUnique env rows
        → Own items is
        → All (λ i. (f.eq i.qty i.qty ≡ true) × (f.eq i.avg_price i.avg_price ≡ true)) is
        → item_changes env (select (of_env env) synced) is ≡ []
    unfolding item_changes
    quiet_items [] account unique own eqs = refl
    quiet_items (i ∷ is) account unique (mine, own) ((qty_eq, price_eq), eqs) = ground (
      arith,
      unchanged i account unique mine qty_eq price_eq,
      quiet_items is account unique own eqs,
    )

    row_not_stale :
        (c : String)
        → f.lt nought nought ≡ false
        → IsAccount items
        → IsUnique env rows
        → stale_row items (find (has_key c env) synced) ≡ false
    row_not_stale c zero_eq account unique =
        let row = mirror-expected c env env now items rows (account.once c) (unique c) in
        elim (Option-cases (find (has_key c env) synced)) [
          | inl none_there ↦ ground (arith, none_there)
          | inr (r, there) ↦
              let live = ap (is_live items) (find_symbol c env synced r there) in
              elim (Option-cases (item_of c items)) [
                | inr (i, held) ↦ ground (arith, there, live ∙ is_live-some c items i held)
                | inl gone ↦ elim (Option-cases (find (has_key c env) rows)) [
                  | inl never ↦ ground (arith, there, row, gone, never, eq_refl env)
                  | inr (old, before) ↦
                      ground (arith, there, row, gone, before, zero_eq, eq_refl env)
                ]
              ]
        ]

    not_stale :
        (c : String)
        → f.lt nought nought ≡ false
        → IsAccount items
        → IsUnique env rows
        → any_named c (select (is_stale items) (select (of_env env) synced)) ≡ false
    not_stale c zero_eq account unique =
        any_named-stale c env items synced (mirror-IsUnique env now items rows unique c)
        ∙ row_not_stale c zero_eq account unique

  -- A second sync of an account that has not changed since the first one, with a table that had each
  -- symbol of the environment once, finds no change and so publishes no event. The account lists each
  -- symbol once, and its numbers are no NaN; 0.0 is not less than itself.
  pub mirror-quiet :
      (env now later : String) (items : List (BalanceItem R)) (rows : List (PositionRow R))
      → f.lt nought nought ≡ false
      → IsAccount items
      → IsUnique env rows
      → (mirror env later items (mirror env now items rows).0).1 ≡ []
  unfolding mirror
  mirror-quiet env now later items rows zero_eq account unique =
      let none_new =
        quiet_items env now items rows items account unique (Own-self items account.once)
          account.no_nan in
      let none_stale =
        none_left (select (is_stale items) (select (of_env env) (mirror env now items rows).0))
          (λ c. not_stale env now items rows c zero_eq account unique) in
      ap
        (λ x.
          x
          ++ map (closing env)
              (select (is_stale items) (select (of_env env) (mirror env now items rows).0)))
        none_new
      ∙ ap (map (closing env)) none_stale
