-- ===== src/Toss/Read.antt =====
-- core/adapters/toss/rest.py, the reading of the other answers: prices, holdings, the account's
-- limits, calendars, stocks, exchange rates and candles, each from the body of the answer.
use quanteo.Base.{
  String, Bool, true, false, not, Option, none, some, List, [], ◌∷◌, str_eq, if◌then◌else◌,
}
use quanteo.Base.Result.{Result, ok, err, runtime_error, ◌>>=◌}
use quanteo.Float.{Float, nought}
use quanteo.Domain.{domestic, overseas}
use quanteo.Toss.Json.{
  Json, text, empty_object, empty_list, get_or, get_opt, get_key, elements, first_element, is_true,
  is_text,
}
use quanteo.Toss.Call.{traverse}
use quanteo.Toss.Port.{Readers}
use quanteo.Toss.Parse.{safe_float, float_field, int_field, safe_nested_dict, safe_get}
use quanteo.Toss.Models.{PriceInfo, BalanceItem, BalanceInfo}

abbrev kept_items : {V : Type 0} → List (Option V) → List V
kept_items [] = []
kept_items (none ∷ os) = kept_items os
kept_items (some v ∷ os) = v ∷ kept_items os

module _ {R : Type 0} ⦃f : Float R⦄ (read : Readers R) where
  abbrev pub result_object : Json R → Result (Json R)
  result_object body = get_or "result" empty_object body

  abbrev pub result_list : Json R → Result (Json R)
  result_list body = get_or "result" empty_list body

  -- `initialize`
  abbrev first_account : Json R → Bool → Result String
  first_account accounts false = err runtime_error
  first_account accounts true = do
    account ← first_element accounts
    seq ← get_key "accountSeq" account
    ok (read.str seq)

  unfoldable pub read_account_seq : Json R → Result String
  unfolding get_or get_key is_true first_element
  read_account_seq body = do accounts ← result_list body; first_account accounts (is_true accounts)

  abbrev price_of : String → Json R → Result (PriceInfo R)
  price_of symbol item = do
    country ← get_or "marketCountry" (text "KR") item
    current ← float_field read "lastPrice" item
    open_price ← float_field read "openPrice" item
    high ← float_field read "highPrice" item
    low ← float_field read "lowPrice" item
    volume ← int_field read "volume" item
    ok (record {
      symbol = symbol;
      current_price = current;
      open_price = open_price;
      high_price = high;
      low_price = low;
      volume = volume;
      market = if is_text country "KR" then domestic else overseas;
      raw = item;
    })

  abbrev first_price : String → Json R → Bool → Result (PriceInfo R)
  first_price symbol results false = err runtime_error
  first_price symbol results true = do item ← first_element results; price_of symbol item

  unfoldable pub read_price : String → Json R → Result (PriceInfo R)
  unfolding get_or is_true first_element is_text
  read_price symbol body = do
    results ← result_list body
    first_price symbol results (is_true results)

  abbrev nested_float : Json R → String → Result R
  nested_float j k = do v ← safe_get read j k; safe_float read v

  abbrev held_item : Json R → R → Bool → Result (Option (BalanceItem R))
  held_item row qty true = ok none
  held_item row qty false = do
    market_value ← safe_nested_dict read row "marketValue"
    profit_loss ← safe_nested_dict read row "profitLoss"
    country ← get_or "marketCountry" (text "KR") row
    symbol ← get_or "symbol" (text "") row
    name ← get_or "name" (text "") row
    avg ← float_field read "averagePurchasePrice" row
    current ← float_field read "lastPrice" row
    value ← nested_float market_value "amount"
    profit ← nested_float profit_loss "amount"
    rate ← nested_float profit_loss "rate"
    ok (
        some (record {
          symbol = symbol;
          symbol_name = name;
          qty = qty;
          avg_price = avg;
          current_price = current;
          eval_amount = value;
          profit_loss = profit;
          profit_loss_rate = rate;
          market = if is_text country "US" then overseas else domestic;
        }))

  abbrev balance_row : Json R → Bool → Result (Option (BalanceItem R))
  balance_row row true = ok none
  balance_row row false = do
    qty ← float_field read "quantity" row
    held_item row qty (f.eq qty nought)

  -- Whether the filter by `symbol` passes the row over.
  abbrev is_other : Json R → Option String → Result Bool
  is_other row none = ok false
  is_other row (some symbol) =
      if str_eq symbol ""
      then ok false
      else do own ← get_opt "symbol" row; ok (not (is_text own symbol))

  abbrev read_row : Option String → Json R → Result (Option (BalanceItem R))
  read_row symbol row = do other ← is_other row symbol; balance_row row other

  -- `_safe_get(_safe_nested_dict(result, k), "amount", k) or {}`, and the sum in KRW.
  abbrev total_krw : Json R → String → Result R
  total_krw result k = do
    nested ← safe_nested_dict read result k
    amount ← safe_get read nested "amount"
    nested_float (if is_true amount then amount else empty_object) "krw"

  unfoldable pub read_balance : Option String → Json R → Result (BalanceInfo R)
  unfolding get_or is_true is_text elements safe_nested_dict safe_get
  read_balance symbol body = do
    result ← result_object body
    holdings ← get_or "items" empty_list result
    rows ← elements holdings
    items ← traverse (read_row symbol) rows
    value ← total_krw result "marketValue"
    profit ← total_krw result "profitLoss"
    ok (record {
      items = kept_items items;
      total_eval_amount_krw = value;
      total_profit_loss_krw = profit;
      deposit = nought;
    })
