-- ===== src/PositionSync/Booking.antt =====
-- The first loop: the rows of the account's items.
use mathlib.Core.Option
use text.Mathlib.TextPositions.{eq_refl}
use mathlib.Core.Path.{subst}
use quanteo.Base.{
  ◌≡◌, ◌∙◌, ◌≤◌, refl, ap, String, Bool, false, ◌&&◌, Option, none, some, List, [], ◌∷◌, arith,
  str_eq, eq_iff, if◌then◌else◌, count_if, inl, inr, Bool-cases, Option-cases,
}
use quanteo.Store.{PositionRow, find, update_where}
use quanteo.Store.Lookup.{find-append}
use quanteo.PositionSync.{
  BalanceItem, has_key, new_position, refreshed, upsert_position, upsert_positions,
}

module _ {R : Type 0} where
  abbrev pub named : String → BalanceItem R → Bool
  named c i = str_eq i.symbol c

  -- The account's item of a symbol.
  abbrev pub item_of : String → List (BalanceItem R) → Option (BalanceItem R)
  unfolding find
  item_of c = find (named c)

  -- The row of an item, over the row that there was.
  abbrev pub merged :
      String → (now : String) → BalanceItem R → Option (PositionRow R) → PositionRow R
  merged env now i none = new_position env now i
  merged env now i (some r) = refreshed now i r

  pub find-update_where :
      (c e d env : String) (g : PositionRow R → PositionRow R)
      → ((r : PositionRow R) → (g r).symbol ≡ r.symbol)
      → ((r : PositionRow R) → (g r).env ≡ r.env)
      → (rows : List (PositionRow R))
      → find (has_key c e) (update_where (has_key d env) g rows) ≡ (
          if str_eq d c && str_eq env e
          then Option.map g (find (has_key c e) rows)
          else find (has_key c e) rows)
  unfolding find update_where
  find-update_where c e d env g same_symbol same_env [] = ground arith
  find-update_where c e d env g same_symbol same_env (x ∷ xs) = ground (
    arith,
    find-update_where c e d env g same_symbol same_env xs,
    ap (λ t. str_eq t c) (same_symbol x),
    ap (λ t. str_eq t e) (same_env x),
    eq_iff x.symbol c,
    eq_iff x.symbol d,
    eq_iff d c,
    eq_iff x.env e,
    eq_iff x.env env,
    eq_iff env e,
  )

  upsert_own :
      (env now : String) (i : BalanceItem R) (rows : List (PositionRow R))
      → find (has_key i.symbol env) (upsert_position env now i rows)
        ≡ some (merged env now i (find (has_key i.symbol env) rows))
  unfolding upsert_position
  upsert_own env now i rows = elim (Option-cases (find (has_key i.symbol env) rows)) [
    | inl h ↦ ground (
      arith,
      find-append (has_key i.symbol env) rows (new_position env now i),
      eq_refl i.symbol,
      eq_refl env,
    )
    | inr (r, h) ↦ ground (
      arith,
      find-update_where i.symbol env i.symbol env (refreshed now i) (λ x. refl) (λ x. refl) rows,
      eq_refl i.symbol,
      eq_refl env,
    )
  ]

  upsert_other :
      (c e env now : String) (i : BalanceItem R) (rows : List (PositionRow R))
      → (str_eq i.symbol c && str_eq env e) ≡ false
      → find (has_key c e) (upsert_position env now i rows) ≡ find (has_key c e) rows
  unfolding upsert_position
  upsert_other c e env now i rows other = elim (Option-cases (find (has_key i.symbol env) rows)) [
    | inl h ↦ ground (arith, find-append (has_key c e) rows (new_position env now i))
    | inr (r, h) ↦
        ground
          (arith, find-update_where c e i.symbol env (refreshed now i) (λ x. refl) (λ x. refl) rows)
  ]

  item_of-absent :
      (c : String) (items : List (BalanceItem R))
      → count_if (named c) items ≡ 0
      → item_of c items ≡ none
  unfolding find
  item_of-absent c [] h = refl
  item_of-absent c (i ∷ is) h = ground (arith, item_of-absent c is)

  -- The row of a symbol after the first loop.
  abbrev pub booked :
      String
      → (now : String) → Option (BalanceItem R)
      → Option (PositionRow R)
      → Option (PositionRow R)
  booked env now none row = row
  booked env now (some i) row = some (merged env now i row)

  pub upserts_other_env :
      (c e env now : String) (items : List (BalanceItem R)) (rows : List (PositionRow R))
      → str_eq env e ≡ false
      → find (has_key c e) (upsert_positions env now items rows) ≡ find (has_key c e) rows
  unfolding upsert_positions
  upserts_other_env c e env now [] rows other = refl
  upserts_other_env c e env now (i ∷ is) rows other =
      upserts_other_env c e env now is (upsert_position env now i rows) other
      ∙ upsert_other c e env now i rows (ground arith)

  pub upserts_booked :
      (c env now : String) (items : List (BalanceItem R)) (rows : List (PositionRow R))
      → count_if (named c) items ≤ 1
      → find (has_key c env) (upsert_positions env now items rows)
        ≡ booked env now (item_of c items) (find (has_key c env) rows)
  unfolding find upsert_positions
  upserts_booked c env now [] rows once = refl
  upserts_booked c env now (i ∷ is) rows once = elim (Bool-cases (str_eq i.symbol c)) [
    | inl same ↦
        let rest : item_of c is ≡ none = item_of-absent c is (ground arith) in
        let own : find (has_key c env) (upsert_position env now i rows)
            ≡ some (merged env now i (find (has_key c env) rows)) =
          subst
            (λ d.
              find (has_key d env) (upsert_position env now i rows)
              ≡ some (merged env now i (find (has_key d env) rows)))
            ((eq_iff i.symbol c).0 same) (upsert_own env now i rows) in
        upserts_booked c env now is (upsert_position env now i rows) (ground arith)
        ∙ ground (arith, rest, own)
    | inr other ↦
        upserts_booked c env now is (upsert_position env now i rows) (ground arith)
        ∙ ground (arith, upsert_other c env env now i rows (ground arith))
  ]
