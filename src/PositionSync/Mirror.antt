-- ===== src/PositionSync/Mirror.antt =====
-- What one sync makes of each row: the table mirrors the account.
use mathlib.Core.Option
use text.Mathlib.TextPositions.{eq_refl}
use mathlib.Core.Path.{subst}
use quanteo.Base.{
  ◌≡◌, ◌∙◌, ◌≤◌, refl, ap, String, Bool, true, false, ◌&&◌, ◌||◌, Option, none, some, List, [], ◌∷◌,
  arith, str_eq, eq_iff, if◌then◌else◌, count_if, inl, inr, Bool-cases, Option-cases,
}
use quanteo.Float.{Float, nought}
use quanteo.Store.{PositionRow, find, select, update_where}
use quanteo.PositionSync.{
  BalanceItem, has_key, of_env, upsert_positions, is_live, is_stale, emptied, close_all, mirror,
}
use quanteo.PositionSync.Booking.{
  named, item_of, find-update_where, upserts_other_env, upserts_booked,
}

module _ {R : Type 0} where
  pub find_symbol :
      (c env : String) (rows : List (PositionRow R)) (r : PositionRow R)
      → find (has_key c env) rows ≡ some r
      → r.symbol ≡ c
  unfolding find
  find_symbol c env [] r h = cc
  find_symbol c env (x ∷ xs) r h = ground (arith, find_symbol c env xs r, eq_iff x.symbol c)

  pub is_live-none :
      (c : String) (items : List (BalanceItem R)) → item_of c items ≡ none → is_live items c ≡ false
  unfolding find
  is_live-none c [] h = refl
  is_live-none c (i ∷ is) h = ground (arith, is_live-none c is)

  pub is_live-some :
      (c : String) (items : List (BalanceItem R)) (i : BalanceItem R)
      → item_of c items ≡ some i
      → is_live items c ≡ true
  unfolding find
  is_live-some c [] i h = cc
  is_live-some c (x ∷ xs) i h = ground (arith, is_live-some c xs i)

  abbrev pub any_named : String → List (PositionRow R) → Bool
  any_named c [] = false
  any_named c (r ∷ rs) = str_eq r.symbol c || any_named c rs

module _ {R : Type 0} ⦃f : Float R⦄ where
  find-close_all :
      (c e env now : String) (stale rows : List (PositionRow R))
      → find (has_key c e) (close_all env now stale rows) ≡ (
          if str_eq env e && any_named c stale
          then Option.map (emptied now) (find (has_key c e) rows)
          else find (has_key c e) rows)
  unfolding close_all
  find-close_all c e env now [] rows = ground arith
  find-close_all c e env now (r ∷ rs) rows = ground (
    arith,
    find-close_all c e env now rs (update_where (has_key r.symbol env) (emptied now) rows),
    find-update_where c e r.symbol env (emptied now) (λ x. refl) (λ x. refl) rows,
  )

  no_key :
      (c env : String) (items : List (BalanceItem R)) (rows : List (PositionRow R))
      → count_if (has_key c env) rows ≡ 0
      → any_named c (select (is_stale items) (select (of_env env) rows)) ≡ false
  unfolding select
  no_key c env items [] h = refl
  no_key c env items (r ∷ rs) h = ground (arith, no_key c env items rs)

  abbrev pub stale_row : List (BalanceItem R) → Option (PositionRow R) → Bool
  stale_row items none = false
  stale_row items (some r) = is_stale items r

  pub any_named-stale :
      (c env : String) (items : List (BalanceItem R)) (rows : List (PositionRow R))
      → count_if (has_key c env) rows ≤ 1
      → any_named c (select (is_stale items) (select (of_env env) rows))
        ≡ stale_row items (find (has_key c env) rows)
  unfolding find select
  any_named-stale c env items [] h = refl
  any_named-stale c env items (r ∷ rs) h =
      ground (arith, any_named-stale c env items rs, no_key c env items rs)

  -- What a sync should make of the row of a symbol: it follows the account's item; a symbol that the
  -- account has no more is emptied if it held anything.
  abbrev pub expected :
      String
      → (now : String) → Option (BalanceItem R)
      → Option (PositionRow R)
      → Option (PositionRow R)
  expected env now (some i) none = some (record {
    symbol = i.symbol;
    market = i.market;
    env = env;
    qty = i.qty;
    avg_price = i.avg_price;
    opened_at = now;
    updated_at = now;
  })
  expected env now (some i) (some r) = some (record {
    symbol = r.symbol;
    market = i.market;
    env = r.env;
    qty = i.qty;
    avg_price = i.avg_price;
    opened_at = r.opened_at;
    updated_at = now;
  })
  expected env now none none = none
  expected env now none (some r) = some (
      if f.lt nought r.qty
      then record {
        symbol = r.symbol;
        market = r.market;
        env = r.env;
        qty = nought;
        avg_price = r.avg_price;
        opened_at = r.opened_at;
        updated_at = now;
      }
      else r)

  mirror_env :
      (c env now : String) (items : List (BalanceItem R)) (rows : List (PositionRow R))
      → count_if (named c) items ≤ 1
      → count_if (has_key c env) rows ≤ 1
      → find (has_key c env) (mirror env now items rows).0
        ≡ expected env now (item_of c items) (find (has_key c env) rows)
  unfolding mirror
  mirror_env c env now items rows once unique =
      let stale = select (is_stale items) (select (of_env env) rows) in
      let named_eq = any_named-stale c env items rows unique in
      let booked_eq = upserts_booked c env now items rows once in
      find-close_all c env env now stale (upsert_positions env now items rows)
      ∙ (elim (Option-cases (find (has_key c env) rows)) [
        | inl h ↦ elim (Option-cases (item_of c items)) [
          | inl gone ↦ ground (arith, named_eq, booked_eq, h, gone, eq_refl env)
          | inr (i, held) ↦ ground (arith, named_eq, booked_eq, h, held, eq_refl env)
        ]
        | inr (r, h) ↦
            let live = ap (is_live items) (find_symbol c env rows r h) in
            elim (Option-cases (item_of c items)) [
              | inl gone ↦ ground (
                arith,
                named_eq,
                booked_eq,
                h,
                gone,
                eq_refl env,
                live ∙ is_live-none c items gone,
              )
              | inr (i, held) ↦ ground (
                arith,
                named_eq,
                booked_eq,
                h,
                held,
                eq_refl env,
                live ∙ is_live-some c items i held,
              )
            ]
      ])

  -- After a sync of an account that lists each symbol once, with a table that has each symbol of the
  -- environment once, the row of every symbol of the environment is what the account says. A held
  -- symbol has the account's market, quantity and price and the time of the sync as its update; it
  -- keeps its opening time, or has the time of the sync for it if it had no row. A symbol that the
  -- account has no more gets quantity 0 and the time of the sync if its quantity was above 0, and
  -- keeps its row otherwise. The rows of other environments are as they were.
  pub mirror-expected :
      (c e env now : String) (items : List (BalanceItem R)) (rows : List (PositionRow R))
      → count_if (named c) items ≤ 1
      → count_if (has_key c env) rows ≤ 1
      → find (has_key c e) (mirror env now items rows).0 ≡ (
          if str_eq env e
          then expected env now (item_of c items) (find (has_key c e) rows)
          else find (has_key c e) rows)
  unfolding mirror
  mirror-expected c e env now items rows once unique = elim (Bool-cases (str_eq env e)) [
    | inl same ↦
        subst
          (λ d.
            find (has_key c d) (mirror env now items rows).0
            ≡ expected env now (item_of c items) (find (has_key c d) rows))
          ((eq_iff env e).0 same) (mirror_env c env now items rows once unique)
        ∙ simp same
    | inr other ↦
        find-close_all c e env now (select (is_stale items) (select (of_env env) rows))
          (upsert_positions env now items rows)
        ∙ ground (arith, upserts_other_env c e env now items rows other)
  ]
