-- ===== src/Store/Recovery.antt =====
-- What a restart reads back with `get_open_positions` and `get_pending_orders`.
use mathlib.Core.Path.{subst}
use quanteo.Base.{◌≡◌, refl, String, ◌&&◌, Option, none, some, List, [], ◌∷◌, arith}
use quanteo.Base.Int.{ℤ}
use quanteo.Base.Result.{ok, ◌>>=◌, >>=-eq-ok}
use quanteo.Float.{Float, nought}
use quanteo.Store.{
  Store, PositionRow, PositionSnapshot, select, in_env, snapshot, snapshot_at, snapshots,
  get_open_positions,
}

-- The elements of two lists belong together one by one.
pub data Pointwise {A B : Type 0} (Q : A → B → Type 0) : List A → List B → Type 0 where
  none_left : Pointwise Q [] []
  both :
      {x : A} {y : B} {xs : List A} {ys : List B}
      → Q x y
      → Pointwise Q xs ys
      → Pointwise Q (x ∷ xs) (y ∷ ys)

module _ {R : Type 0} ⦃f : Float R⦄ where
  -- The snapshot of a row: its texts and its average price, and the whole part of its quantity.
  pub record Recovers (r : PositionRow R) (p : PositionSnapshot R) : Type 0 where
    pub symbol : p.symbol ≡ r.symbol
    pub market : p.market ≡ r.market
    pub env : p.env ≡ r.env
    pub avg_price : p.avg_price ≡ r.avg_price
    pub qty : f.trunc r.qty ≡ some p.qty

  snapshot-Recovers :
      (r : PositionRow R) (o : Option ℤ) {p : PositionSnapshot R}
      → f.trunc r.qty ≡ o
      → snapshot r o ≡ ok p
      → Recovers r p
  snapshot-Recovers r none e h = cc
  snapshot-Recovers r (some n) {p} e h =
      let same : snapshot_at r n ≡ p = ground arith in
      subst (Recovers r) same
        record { symbol = refl; market = refl; env = refl; avg_price = refl; qty = e }

  snapshots-Recovers :
      (rs : List (PositionRow R)) {ps : List (PositionSnapshot R)}
      → snapshots rs ≡ ok ps
      → Pointwise Recovers rs ps
  unfolding snapshots
  snapshots-Recovers [] h = subst (Pointwise Recovers []) (ground arith) none_left
  snapshots-Recovers (r ∷ rs) h =
      let (p, first, more) =
        >>=-eq-ok (snapshot r (f.trunc r.qty)) (λ q. snapshots rs >>= λ qs. ok (q ∷ qs)) h in
      let (ps, rest, last) = >>=-eq-ok (snapshots rs) (λ qs. ok (p ∷ qs)) more in
      subst (Pointwise Recovers (r ∷ rs)) (ground arith)
        (both (snapshot-Recovers r (f.trunc r.qty) refl first) (snapshots-Recovers rs rest))

  -- A successful recovery has one snapshot for each row of the environment with a positive quantity,
  -- in the order of the query. The quantity of a snapshot is the whole part of the row's quantity: a
  -- fractional share is cut, and a position below one share comes back with quantity 0.
  pub get_open_positions-Recovers :
      (order_by : List (PositionRow R) → List (PositionRow R)) (env : Option String) (s : Store R)
      {ps : List (PositionSnapshot R)}
      → get_open_positions order_by env s ≡ ok ps
      → Pointwise Recovers
          (order_by (select (λ r. f.lt nought r.qty && in_env env r.env) s.positions))
          ps
  unfolding get_open_positions
  get_open_positions-Recovers order_by env s h =
      snapshots-Recovers
        (order_by (select (λ r. f.lt nought r.qty && in_env env r.env) s.positions)) h
