-- ===== src/WalkForward.antt =====
-- core/backtest/walk_forward.py: the folds of the validation. The backtest engine is the argument
-- `run`, with the state of its strategy, which the folds share; `sharpe_ratio` is the ratio that
-- core/backtest/metrics.py computes from a result. The text of `summary` is left out.
pub mod Folds
pub mod Tests
use quanteo.Base.{
  ℕ, zero, suc, ◌+◌, ◌-◌, ◌*◌, Bool, true, false, Option, none, some, List, [], ◌∷◌, ltb, leb, take,
  drop, length, count_if, if◌then◌else◌,
}
use quanteo.Base.Int.{pos}
use quanteo.Base.Result.{Result, ok, err, ◌>>=◌}
use quanteo.Float.{Float, nought}
use quanteo.MarketData.{Candle}

pub record WalkForwardFold (Q : Type 0) : Type 0 where
  pub fold_idx : ℕ
  pub in_sample_start : ℕ
  pub in_sample_end : ℕ
  pub out_sample_start : ℕ
  pub out_sample_end : ℕ
  pub in_sample_result : Q
  pub out_sample_result : Q
  pub is_overfit : Bool

pub record WalkForwardResult (R Q : Type 0) : Type 0 where
  pub folds : List (WalkForwardFold Q)
  pub n_overfit : ℕ
  pub overfit_ratio : R

-- The two spans, in candles.
pub record WalkForwardValidator : Type 0 where
  pub in_sample_days : ℕ
  pub out_sample_days : ℕ

unfoldable pub new_validator :
    (in_sample_months out_sample_months trading_days_per_month : ℕ) → WalkForwardValidator
new_validator in_months out_months days = record {
  in_sample_days = in_months * days;
  out_sample_days = out_months * days;
}

-- `xs[start:stop]`
abbrev pub slice {ℓ} : {A : Type ℓ} → (start stop : ℕ) → List A → List A
slice start stop xs = take (stop - start) (drop start xs)

module _ {R S Q : Type 0} ⦃f : Float R⦄ (run : List (Candle R) → S → Result (Q × S))
    (sharpe_ratio : Q → R) (threshold : R) where
  -- `threshold` is `_OVERFITTING_THRESHOLD`.
  unfoldable pub detect_overfitting : (in_sharpe out_sharpe : R) → Bool
  detect_overfitting in_sharpe out_sharpe =
      if f.le in_sharpe nought
      then false
      else f.lt threshold (f.div (f.sub in_sharpe out_sharpe) in_sharpe)

  module _ (v : WalkForwardValidator) (candles : List (Candle R)) where
    abbrev pub window : ℕ
    window = v.in_sample_days + v.out_sample_days

    abbrev pub fold_of : (fold_idx start : ℕ) → Q → Q → WalkForwardFold Q
    fold_of fold_idx start in_result out_result =
        let in_end = start + v.in_sample_days in
        record {
          fold_idx = fold_idx;
          in_sample_start = start;
          in_sample_end = in_end;
          out_sample_start = in_end;
          out_sample_end = in_end + v.out_sample_days;
          in_sample_result = in_result;
          out_sample_result = out_result;
          is_overfit = detect_overfitting (sharpe_ratio in_result) (sharpe_ratio out_result);
        }

    -- The body of the loop.
    unfoldable pub fold_at : (fold_idx start : ℕ) → S → Result (WalkForwardFold Q × S)
    unfolding detect_overfitting
    fold_at fold_idx start σ =
        let in_end = start + v.in_sample_days in
        run (slice start in_end candles) σ >>= λ r.
        run (slice in_end (in_end + v.out_sample_days) candles) r.1 >>= λ r'.
        ok (fold_of fold_idx start r.0 r'.0, r'.1)

    abbrev pub put_first :
        WalkForwardFold Q
        → Option (Result (List (WalkForwardFold Q)))
        → Option (Result (List (WalkForwardFold Q)))
    put_first fold none = none
    put_first fold (some (err e)) = some (err e)
    put_first fold (some (ok folds)) = some (ok (fold ∷ folds))

    abbrev pub with_fold :
        Result (WalkForwardFold Q × S)
        → (S → Option (Result (List (WalkForwardFold Q))))
        → Option (Result (List (WalkForwardFold Q)))
    with_fold (err e) rest = some (err e)
    with_fold (ok (fold, σ)) rest = put_first fold (rest σ)

    -- The `while` loop; `none` when the fuel is spent.
    unfoldable pub folds_from :
        (fuel fold_idx start : ℕ) → S → Option (Result (List (WalkForwardFold Q)))
    unfolding fold_at
    folds_from zero fold_idx start σ = none
    folds_from (suc k) fold_idx start σ =
        if leb (start + window) (length candles)
        then with_fold (fold_at fold_idx start σ)
            (folds_from k (suc fold_idx) (start + v.out_sample_days))
        else some (ok [])

    abbrev overfit_ratio_of : List (WalkForwardFold Q) → (n_overfit : ℕ) → R
    overfit_ratio_of [] n_overfit = nought
    overfit_ratio_of (x ∷ xs) n_overfit =
        f.div (f.of_int (pos n_overfit)) (f.of_int (pos (length (x ∷ xs))))

    abbrev pub summed : List (WalkForwardFold Q) → WalkForwardResult R Q
    summed folds =
        let n_overfit = count_if (λ fold. fold.is_overfit) folds in
        record {
          folds = folds;
          n_overfit = n_overfit;
          overfit_ratio = overfit_ratio_of folds n_overfit;
        }

    abbrev pub summed_if :
        Option (Result (List (WalkForwardFold Q))) → Option (Result (WalkForwardResult R Q))
    summed_if none = none
    summed_if (some (err e)) = some (err e)
    summed_if (some (ok folds)) = some (ok (summed folds))

    unfoldable pub validate : (fuel : ℕ) → S → Option (Result (WalkForwardResult R Q))
    unfolding folds_from
    validate fuel σ =
        if ltb (length candles) window
        then some (ok (record { folds = []; n_overfit = 0; overfit_ratio = nought }))
        else summed_if (folds_from fuel 0 0 σ)
