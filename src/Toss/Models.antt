-- ===== src/Toss/Models.antt =====
-- core/adapters/toss/models.py and core/adapters/models.py: what the client's methods return. A
-- field that the client passes on unread is a JSON value.
use quanteo.Base.{String, Bool, Option, List}
use quanteo.Base.Int.{ℤ}
use quanteo.Domain.{Market}
use quanteo.Toss.Json.{Json}

pub record PriceInfo (R : Type 0) : Type 0 where
  pub symbol : String
  pub current_price : R
  pub open_price : R
  pub high_price : R
  pub low_price : R
  pub volume : ℤ
  pub market : Market
  pub raw : Json R

pub record BalanceItem (R : Type 0) : Type 0 where
  pub symbol : Json R
  pub symbol_name : Json R
  pub qty : R
  pub avg_price : R
  pub current_price : R
  pub eval_amount : R
  pub profit_loss : R
  pub profit_loss_rate : R
  pub market : Market

pub record BalanceInfo (R : Type 0) : Type 0 where
  pub items : List (BalanceItem R)
  pub total_eval_amount_krw : R
  pub total_profit_loss_krw : R
  pub deposit : R

pub record BuyingPowerInfo (R : Type 0) : Type 0 where
  pub currency : Json R
  pub cash_buying_power : R

pub record Commission (R : Type 0) : Type 0 where
  pub market_country : Json R
  pub commission_rate : R
  pub start_date : Json R
  pub end_date : Json R

pub record OrderExecution (R : Type 0) : Type 0 where
  pub filled_quantity : R
  pub avg_fill_price : Option R
  pub fees : Option R
  pub filled_at : Option String

pub record TossOrder (R : Type 0) : Type 0 where
  pub order_id : Json R
  pub client_order_id : Json R
  pub symbol : Json R
  pub side : Json R
  pub order_type : Json R
  pub status : Json R
  pub quantity : R
  pub price : Option R
  pub currency : Json R
  pub ordered_at : String
  pub execution : OrderExecution R

pub record Fill (R : Type 0) : Type 0 where
  pub symbol : Json R
  pub price : R
  pub volume : R
  pub timestamp : String
  pub currency : Json R
  pub side : Json R

pub record PriceLimits (R : Type 0) : Type 0 where
  pub symbol : String
  pub upper_limit_price : Option R
  pub lower_limit_price : Option R
  pub timestamp : String
  pub currency : Json R

-- `KrMarketDay` and `UsMarketDay` differ in the names of their fields only.
pub record MarketDay (R : Type 0) : Type 0 where
  pub date : Json R
  pub is_open : Bool
  pub open_time : Json R
  pub close_time : Json R

pub record MarketCalendar (R : Type 0) : Type 0 where
  pub today : MarketDay R
  pub previous_business_day : MarketDay R
  pub next_business_day : MarketDay R

pub record StockInfo (R : Type 0) : Type 0 where
  pub symbol : Json R
  pub name : Json R
  pub english_name : Json R
  pub market : Json R
  pub status : Json R
  pub currency : Json R
  pub isin_code : Json R
  pub is_common_share : Bool

pub record StockWarning (R : Type 0) : Type 0 where
  pub warning_type : Json R
  pub start_date : Json R
  pub end_date : Json R

pub record ExchangeRate (R : Type 0) : Type 0 where
  pub base_currency : Json R
  pub quote_currency : Json R
  pub rate : R
  pub mid_rate : R
  pub rate_change_type : Json R
  pub valid_from : String
  pub valid_until : String

pub record TossCandle (R : Type 0) : Type 0 where
  pub timestamp : String
  pub open_price : R
  pub high_price : R
  pub low_price : R
  pub close_price : R
  pub volume : ℤ
  pub currency : Json R
