-- ===== src/WalkForward/Folds.antt =====
-- The folds of the validation: they tile the candles, and there are as many as fit.
use mathlib.Core.Path.{subst}
use quanteo.Base.{
  ℕ, zero, suc, ◌+◌, ◌-◌, ◌≤◌, ◌<◌, ◌≡◌, refl, ap, Option, some, List, [], ◌∷◌, ltb, leb, take,
  drop, length, length-drop, count_if, arith, if_intro,
}
use quanteo.Base.Result.{Result, ok, err, ok_injective, >>=-eq-ok, ◌>>=◌}
use quanteo.Float.{Float, nought}
use quanteo.MarketData.{Candle}
use quanteo.WalkForward.{
  WalkForwardFold, WalkForwardResult, WalkForwardValidator, slice, detect_overfitting, fold_of,
  fold_at, put_first, with_fold, folds_from, summed, summed_if, validate,
}

length-take : {A : Type 0} (n : ℕ) (xs : List A) → n ≤ length xs → length (take n xs) ≡ n
length-take zero xs h = refl
length-take (suc n) [] h = omega arith
length-take (suc n) (x ∷ xs) h = omega (arith, length-take n xs (omega arith))

length-slice :
    {A : Type 0} (start stop : ℕ) (xs : List A)
    → stop ≤ length xs
    → length (slice start stop xs) ≡ stop - start
length-slice start stop xs h =
    length-take (stop - start) (drop start xs) (omega (arith, length-drop start xs))

module _ {R S Q : Type 0} ⦃f : Float R⦄ (run : List (Candle R) → S → Result (Q × S))
    (sharpe_ratio : Q → R) (threshold : R) (v : WalkForwardValidator)
    (candles : List (Candle R)) where
  -- A result of the engine on the candles of a span that has `days` candles.
  pub record IsRunOf (start stop days : ℕ) (q : Q) : Type 0 where
    pub before : S
    pub afterwards : S
    pub ran : run (slice start stop candles) before ≡ ok (q, afterwards)
    pub whole : length (slice start stop candles) ≡ days

  -- The fold that starts at `start`.
  pub record IsFold (idx start : ℕ) (fold : WalkForwardFold Q) : Type 0 where
    pub index : fold.fold_idx ≡ idx
    pub first : fold.in_sample_start ≡ start
    pub in_run :
        IsRunOf fold.in_sample_start fold.in_sample_end v.in_sample_days fold.in_sample_result
    pub middle : fold.out_sample_start ≡ fold.in_sample_end
    pub out_run :
        IsRunOf fold.out_sample_start fold.out_sample_end v.out_sample_days fold.out_sample_result
    pub inside : fold.out_sample_end ≤ length candles
    pub overfit :
        fold.is_overfit
        ≡ detect_overfitting run sharpe_ratio threshold
            (sharpe_ratio fold.in_sample_result)
            (sharpe_ratio fold.out_sample_result)

  -- Folds at steps of the out-of-sample span, until no further one fits.
  abbrev pub IsTiling : (idx start : ℕ) → List (WalkForwardFold Q) → Type 0
  IsTiling idx start [] = length candles < start + (v.in_sample_days + v.out_sample_days)
  IsTiling idx start (fold ∷ folds) =
      IsFold idx start fold × IsTiling (suc idx) (start + v.out_sample_days) folds

  fold_at-IsFold :
      (idx start : ℕ) (σ σ' : S) (fold : WalkForwardFold Q)
      → start + (v.in_sample_days + v.out_sample_days) ≤ length candles
      → fold_at run sharpe_ratio threshold v candles idx start σ ≡ ok (fold, σ')
      → IsFold idx start fold
  unfolding fold_at
  fold_at-IsFold idx start σ σ' fold fits h =
      let in_end = start + v.in_sample_days in
      let out_end = in_end + v.out_sample_days in
      let later = λ (r : Q × S). run (slice in_end out_end candles) r.1 >>= λ r'.
      ok (fold_of run sharpe_ratio threshold v candles idx start r.0 r'.0, r'.1) in
      let ((q, σ1), ran, more) = >>=-eq-ok (run (slice start in_end candles) σ) later h in
      let ((q', σ2), ran', done) =
        >>=-eq-ok (run (slice in_end out_end candles) σ1)
          (λ r'. ok (fold_of run sharpe_ratio threshold v candles idx start q r'.0, r'.1)) more in
      subst (IsFold idx start) (ap (λ p. p.0) (ok_injective done)) (record {
        index = refl;
        first = refl;
        in_run = record {
          before = σ;
          afterwards = σ1;
          ran = ran;
          whole = omega (arith, length-slice start in_end candles (omega arith));
        };
        middle = refl;
        out_run = record {
          before = σ1;
          afterwards = σ2;
          ran = ran';
          whole = omega (arith, length-slice in_end out_end candles (omega arith));
        };
        inside = omega arith;
        overfit = refl;
      })

  -- The loop has returned, and folds that it returned are a tiling.
  abbrev Tiled : (idx start : ℕ) → Option (Result (List (WalkForwardFold Q))) → Type 0
  Tiled idx start o =
      (r : Result (List (WalkForwardFold Q))) × (o ≡ some r)
      × ((folds : List (WalkForwardFold Q)) → r ≡ ok folds → IsTiling idx start folds)

  put_first-Tiled :
      (idx start : ℕ) (fold : WalkForwardFold Q) (o : Option (Result (List (WalkForwardFold Q))))
      → IsFold idx start fold
      → Tiled (suc idx) (start + v.out_sample_days) o
      → Tiled idx start (put_first run sharpe_ratio threshold v candles fold o)
  put_first-Tiled idx start fold o is_fold (err e, same, tiles) =
      (err e, ap (put_first run sharpe_ratio threshold v candles fold) same, (λ folds h. cc))
  put_first-Tiled idx start fold o is_fold (ok rest, same, tiles) = (
    ok (fold ∷ rest),
    ap (put_first run sharpe_ratio threshold v candles fold) same,
    (λ folds h. subst (IsTiling idx start) (ok_injective h) (is_fold, tiles rest refl)),
  )

  with_fold-Tiled :
      (idx start : ℕ) (call : Result (WalkForwardFold Q × S))
      (rest : S → Option (Result (List (WalkForwardFold Q))))
      → ((fold : WalkForwardFold Q) (σ : S) → call ≡ ok (fold, σ) → IsFold idx start fold)
      → ((σ : S) → Tiled (suc idx) (start + v.out_sample_days) (rest σ))
      → Tiled idx start (with_fold run sharpe_ratio threshold v candles call rest)
  with_fold-Tiled idx start (err e) rest here later = (err e, refl, (λ folds h. cc))
  with_fold-Tiled idx start (ok (fold, σ)) rest here later =
      put_first-Tiled idx start fold (rest σ) (here fold σ refl) (later σ)

  folds_from-Tiled :
      (fuel idx start : ℕ) (σ : S)
      → 0 < v.out_sample_days
      → 0 < fuel
      → length candles < start + fuel
      → Tiled idx start (folds_from run sharpe_ratio threshold v candles fuel idx start σ)
  unfolding folds_from
  folds_from-Tiled zero idx start σ moves some_fuel enough = ground arith
  folds_from-Tiled (suc k) idx start σ moves some_fuel enough =
      if_intro (Tiled idx start)
        (leb (start + (v.in_sample_days + v.out_sample_days)) (length candles))
        (with_fold run sharpe_ratio threshold v candles
          (fold_at run sharpe_ratio threshold v candles idx start σ)
          (folds_from run sharpe_ratio threshold v candles k (suc idx) (start + v.out_sample_days)))
        (some (ok []))
        (λ fits.
          with_fold-Tiled idx start (fold_at run sharpe_ratio threshold v candles idx start σ)
            (folds_from run sharpe_ratio threshold v candles k (suc idx)
              (start + v.out_sample_days))
            (λ fold σ' h. fold_at-IsFold idx start σ σ' fold (ground arith) h)
            (λ σ'.
              folds_from-Tiled k (suc idx) (start + v.out_sample_days) σ' moves (ground arith)
                (ground arith)))
        (λ over.
          (ok [], refl, (λ folds h. subst (IsTiling idx start) (ok_injective h) (ground arith))))

  summed_lem :
      (o : Option (Result (List (WalkForwardFold Q))))
      → Tiled 0 0 o
      → (r : Result (WalkForwardResult R Q)) × (summed_if run sharpe_ratio threshold v candles o
          ≡ some r)
        × ((w : WalkForwardResult R Q)
            → r ≡ ok w
            → IsTiling 0 0 w.folds × (w.n_overfit ≡ count_if (λ fold. fold.is_overfit) w.folds))
  summed_lem o (err e, same, tiles) =
      (err e, ap (summed_if run sharpe_ratio threshold v candles) same, (λ w h. cc))
  summed_lem o (ok folds, same, tiles) = (
    ok (summed run sharpe_ratio threshold v candles folds),
    ap (summed_if run sharpe_ratio threshold v candles) same,
    (λ w h.
        subst
          (λ w. IsTiling 0 0 w.folds × (w.n_overfit ≡ count_if (λ fold. fold.is_overfit) w.folds))
          (ok_injective h) (tiles folds refl, refl)),
  )

  -- With an out-of-sample span of a candle or more, `validate` returns when its fuel exceeds the number of candles. If
  -- the engine does not raise, the folds of the result start at multiples of the
  -- out-of-sample span, one after the other from 0 on, until no further one fits; each ends within
  -- the candles, is the engine's run on all candles of its in-sample span and then on all of the
  -- span that starts where that ends, and bears the flag of its two ratios; `n_overfit` counts the flags.
  pub validate-IsTiling :
      (fuel : ℕ) (σ : S)
      → 0 < v.out_sample_days
      → length candles < fuel
      → (r : Result (WalkForwardResult R Q)) × (validate run sharpe_ratio threshold v candles fuel σ
          ≡ some r)
        × ((w : WalkForwardResult R Q)
            → r ≡ ok w
            → IsTiling 0 0 w.folds × (w.n_overfit ≡ count_if (λ fold. fold.is_overfit) w.folds))
  unfolding validate
  validate-IsTiling fuel σ moves enough =
      if_intro
        (λ o.
          (r : Result (WalkForwardResult R Q)) × (o ≡ some r)
          × ((w : WalkForwardResult R Q)
              → r ≡ ok w
              → IsTiling 0 0 w.folds × (w.n_overfit ≡ count_if (λ fold. fold.is_overfit) w.folds)))
        (ltb (length candles) (v.in_sample_days + v.out_sample_days))
        (some (ok (record { folds = []; n_overfit = 0; overfit_ratio = nought })))
        (summed_if run sharpe_ratio threshold v candles
          (folds_from run sharpe_ratio threshold v candles fuel 0 0 σ))
        (λ few. (
          ok (record { folds = []; n_overfit = 0; overfit_ratio = nought }),
          refl,
          (λ w h.
              subst
                (λ w.
                  IsTiling 0 0 w.folds × (w.n_overfit ≡ count_if (λ fold. fold.is_overfit) w.folds))
                (ok_injective h) (ground arith, refl)),
        ))
        (λ many.
          summed_lem (folds_from run sharpe_ratio threshold v candles fuel 0 0 σ)
            (folds_from-Tiled fuel 0 0 σ moves (ground arith) (omega arith)))
