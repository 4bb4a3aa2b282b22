-- ===== src/WalkForward/Tests.antt =====
-- Four candles in folds of two and one; the engine counts candles and runs.
use quanteo.Base.{ℕ, suc, ◌≡◌, refl, false, some, List, [], ◌∷◌, length, count_if, arith}
use quanteo.Base.Int.{pos, ◌-ℤ◌}
use quanteo.Base.Result.{Result, ok}
use quanteo.Float.Won.{Won, won_float}
use quanteo.Domain.{domestic}
use quanteo.MarketData.{Candle}
use quanteo.WalkForward.{WalkForwardFold, WalkForwardResult, WalkForwardValidator, validate}
use quanteo.WalkForward.Folds.{IsTiling, validate-IsTiling}

abbrev candle : Candle Won
candle = record {
  symbol = "A";
  open_price = pos 100;
  high = pos 105;
  low = pos 95;
  close = pos 102;
  volume = pos 10;
  timestamp = "d1";
  market = domestic;
}

abbrev days : List (Candle Won)
days = candle ∷ candle ∷ candle ∷ candle ∷ []

abbrev run : List (Candle Won) → ℕ → Result (ℕ × ℕ)
run cs runs = ok (length cs, suc runs)

abbrev ratio : ℕ → Won
ratio n = pos n

abbrev spans : WalkForwardValidator
spans = record { in_sample_days = 2; out_sample_days = 1 }

abbrev fold : ℕ → WalkForwardFold ℕ
fold k = record {
  fold_idx = k;
  in_sample_start = k;
  in_sample_end = suc (suc k);
  out_sample_start = suc (suc k);
  out_sample_end = suc (suc (suc k));
  in_sample_result = 2;
  out_sample_result = 1;
  is_overfit = false;
}

-- The ratio falls from 2 to 1, which is not more than the threshold here.
two_folds :
    validate run ratio (pos 30) spans days 5 0
    ≡ some (ok (record { folds = fold 0 ∷ fold 1 ∷ []; n_overfit = 0; overfit_ratio = pos 0 }))
unfolding validate ◌-ℤ◌
two_folds = refl

validate-IsTiling_example :
    (r : Result (WalkForwardResult Won ℕ)) × (validate run ratio (pos 30) spans days 5 0 ≡ some r)
    × ((w : WalkForwardResult Won ℕ)
        → r ≡ ok w
        → IsTiling run ratio (pos 30) spans days 0 0 w.folds
          × (w.n_overfit ≡ count_if (λ fold. fold.is_overfit) w.folds))
validate-IsTiling_example =
    validate-IsTiling run ratio (pos 30) spans days 5 0 (omega arith) (omega arith)
