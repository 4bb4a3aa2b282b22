-- ===== src/PositionSync.antt =====
-- core/execution/position_sync.py: the account's holdings, mirrored into `positions`. `get_balance` is
-- given by its answer, `now` is the clock's ISO text. The lock makes one call run at a time. The
-- surrounding loop is `PollLoop`.
pub mod Booking
pub mod Mirror
pub mod Quiet
pub mod Tests
use quanteo.Base.{
  String, Bool, true, false, not, ◌&&◌, ◌||◌, Option, none, some, List, [], ◌∷◌, ◌++◌, map, str_eq,
  if◌then◌else◌,
}
use quanteo.Base.Result.{Result, ok, err, ◌>>=◌}
use quanteo.Float.{Float, nought}
use quanteo.Domain.{
  Market, PositionUpdate, Payload, position_changed, Change, opened, updated, closed,
}
use quanteo.Events.{Event, EventBus, position_updated, publish}
use quanteo.Store.{Store, PositionRow, find, select, update_where}

-- The fields of core/adapters/models.py `BalanceItem` that the feed reads.
pub record BalanceItem (R : Type 0) : Type 0 where
  pub symbol : String
  pub market : Market
  pub qty : R
  pub avg_price : R

module _ {R : Type 0} where
  abbrev pub has_key : String → String → PositionRow R → Bool
  has_key symbol env r = str_eq r.symbol symbol && str_eq r.env env

  abbrev pub of_env : String → PositionRow R → Bool
  of_env env r = str_eq r.env env

  abbrev pub new_position : String → (now : String) → BalanceItem R → PositionRow R
  new_position env now i = record {
    symbol = i.symbol;
    market = i.market;
    env = env;
    qty = i.qty;
    avg_price = i.avg_price;
    opened_at = now;
    updated_at = now;
  }

  abbrev pub refreshed : (now : String) → BalanceItem R → PositionRow R → PositionRow R
  refreshed now i r = record r {
    market = i.market;
    qty = i.qty;
    avg_price = i.avg_price;
    updated_at = now;
  }

  -- INSERT … ON CONFLICT(symbol, env) DO UPDATE.
  unfoldable pub upsert_position :
      String → (now : String) → BalanceItem R → List (PositionRow R) → List (PositionRow R)
  unfolding find update_where
  upsert_position env now i rows = elim (find (has_key i.symbol env) rows) [
    | some r ↦ update_where (has_key i.symbol env) (refreshed now i) rows
    | none ↦ rows ++ new_position env now i ∷ []
  ]

  unfoldable pub upsert_positions :
      String → (now : String) → List (BalanceItem R) → List (PositionRow R) → List (PositionRow R)
  unfolding upsert_position
  upsert_positions env now [] rows = rows
  upsert_positions env now (i ∷ is) rows =
      upsert_positions env now is (upsert_position env now i rows)

  -- `live_symbols`
  abbrev pub is_live : List (BalanceItem R) → String → Bool
  is_live [] symbol = false
  is_live (i ∷ is) symbol = str_eq i.symbol symbol || is_live is symbol

module _ {R : Type 0} ⦃f : Float R⦄ where
  abbrev pub item_update : String → BalanceItem R → Change → PositionUpdate R
  item_update env i change = record {
    symbol = i.symbol;
    market = i.market;
    env = env;
    qty = i.qty;
    avg_price = i.avg_price;
    book_value = f.mul i.qty i.avg_price;
    change = change;
  }

  abbrev pub change_of : Option (PositionRow R) → BalanceItem R → Option Change
  change_of none i = some opened
  change_of (some r) i =
      if not (f.eq r.qty i.qty) || not (f.eq r.avg_price i.avg_price) then some updated else none

  abbrev noted :
      String → BalanceItem R → Option Change → List (PositionUpdate R) → List (PositionUpdate R)
  noted env i none rest = rest
  noted env i (some change) rest = item_update env i change ∷ rest

  -- The changes of the first loop, against the rows before the sync; a symbol has one row there.
  unfoldable pub item_changes :
      String → List (PositionRow R) → List (BalanceItem R) → List (PositionUpdate R)
  unfolding find
  item_changes env before [] = []
  item_changes env before (i ∷ is) =
      noted env i (change_of (find (has_key i.symbol env) before) i) (item_changes env before is)

  abbrev pub is_stale : List (BalanceItem R) → PositionRow R → Bool
  is_stale items r = f.lt nought r.qty && not (is_live items r.symbol)

  abbrev pub emptied : (now : String) → PositionRow R → PositionRow R
  emptied now r = record r { qty = nought; updated_at = now }

  -- The UPDATE of each stale row.
  unfoldable pub close_all :
      String → (now : String) → List (PositionRow R) → List (PositionRow R) → List (PositionRow R)
  unfolding update_where
  close_all env now [] rows = rows
  close_all env now (r ∷ rs) rows =
      close_all env now rs (update_where (has_key r.symbol env) (emptied now) rows)

  abbrev pub closing : String → PositionRow R → PositionUpdate R
  closing env r = record {
    symbol = r.symbol;
    market = r.market;
    env = env;
    qty = nought;
    avg_price = nought;
    book_value = nought;
    change = closed;
  }

  abbrev pub change_event : PositionUpdate R → Event (Payload R)
  change_event u = record {
    type = position_updated;
    payload = position_changed u;
    source = "position-sync";
  }

  unfoldable pub publish_all : List (PositionUpdate R) → EventBus (Payload R) → EventBus (Payload R)
  publish_all [] b = b
  publish_all (u ∷ us) b = publish_all us (publish (change_event u) b)

  abbrev pub publish_changes :
      List (PositionUpdate R) → Option (EventBus (Payload R)) → Option (EventBus (Payload R))
  publish_changes us none = none
  publish_changes us (some b) = some (publish_all us b)

  -- The rows and the changes of `_sync_once_locked`.
  unfoldable pub mirror :
      String
      → (now : String) → List (BalanceItem R)
      → List (PositionRow R)
      → List (PositionRow R) × List (PositionUpdate R)
  unfolding select upsert_positions item_changes close_all
  mirror env now items rows =
      let before = select (of_env env) rows in
      let stale = select (is_stale items) before in
      (
        close_all env now stale (upsert_positions env now items rows),
        item_changes env before items ++ map (closing env) stale,
      )

  unfoldable pub sync_once :
      Result (List (BalanceItem R))
      → String
      → (now : String) → Store R × Option (EventBus (Payload R))
      → Result (Store R × Option (EventBus (Payload R)))
  unfolding mirror
  sync_once balance env now (s, b) = balance >>= λ items.
      let (rows, changes) = mirror env now items s.positions in
      ok (record s { positions = rows }, publish_changes changes b)
