-- ===== src/PositionSync/Tests.antt =====
-- An account with one holding, and a table with another one that was sold in the broker's app.
use quanteo.Base.{◌≡◌, refl, List, [], ◌∷◌, arith, str_eq, if◌then◌else◌}
use quanteo.Base.Int.{pos}
use quanteo.Float.Won.{Won, won_float}
use quanteo.Domain.{domestic}
use quanteo.Store.{PositionRow, find}
use quanteo.PositionSync.{BalanceItem, has_key, mirror}
use quanteo.PositionSync.Booking.{item_of}
use quanteo.PositionSync.Mirror.{expected, mirror-expected}
use quanteo.PositionSync.Quiet.{IsUnique, IsAccount, mirror-quiet}

abbrev item : BalanceItem Won
item = record { symbol = "A"; market = domestic; qty = pos 3; avg_price = pos 100 }

abbrev sold : PositionRow Won
sold = record {
  symbol = "B";
  market = domestic;
  env = "prod";
  qty = pos 5;
  avg_price = pos 200;
  opened_at = "t";
  updated_at = "t";
}

abbrev items : List (BalanceItem Won)
items = item ∷ []

abbrev rows : List (PositionRow Won)
rows = sold ∷ []

rows-IsUnique : IsUnique "prod" rows
rows-IsUnique c = ground arith

items-IsAccount : IsAccount items
items-IsAccount = record { once = λ c. ground arith; no_nan = ((refl, refl), tt) }

mirror-expected_example : find (has_key "B" "prod") (mirror "prod" "u" items rows).0 ≡ (
    if str_eq "prod" "prod"
    then expected "prod" "u" (item_of "B" items) (find (has_key "B" "prod") rows)
    else find (has_key "B" "prod") rows)
mirror-expected_example =
    mirror-expected "B" "prod" "prod" "u" items rows (omega arith) (omega arith)

mirror-quiet_example : (mirror "prod" "v" items (mirror "prod" "u" items rows).0).1 ≡ []
mirror-quiet_example = mirror-quiet "prod" "u" "v" items rows refl items-IsAccount rows-IsUnique
