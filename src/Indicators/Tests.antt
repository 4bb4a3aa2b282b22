-- ===== src/Indicators/Tests.antt =====
-- An average, a cross upwards and a zone, on whole numbers.
use quanteo.Base.{◌≡◌, refl, true, List, [], ◌∷◌}
use quanteo.Base.Int.{pos, ◌+ℤ◌}
use quanteo.Float.Won.{Won, won_float}
use quanteo.Indicators.{calculate_sma, detect_golden_cross, get_cci_zone, overbought}

abbrev rising : List Won
rising = pos 2 ∷ pos 4 ∷ pos 6 ∷ pos 8 ∷ []

averages : calculate_sma rising 2 ≡ pos 3 ∷ pos 5 ∷ pos 7 ∷ []
unfolding calculate_sma ◌+ℤ◌
averages = refl

crossed : detect_golden_cross (pos 1 ∷ pos 5 ∷ []) (pos 2 ∷ pos 3 ∷ []) ≡ true
unfolding detect_golden_cross
crossed = refl

zone : get_cci_zone (pos 150) ≡ overbought
unfolding get_cci_zone
zone = refl
