-- ===== src/OrderSync/Maps.antt =====
-- The two tables of the feed fit together.
use quanteo.Base.{◌≡◌, ◌≢◌, String, false, none, some, arith}
use quanteo.Domain.{Status}
use quanteo.Store.{is_open}
use quanteo.OrderSync.{closed_status, event_type_map}

-- Every status that a broker reply maps to is a closed one and has an event type: no order is
-- reopened, and the branch for a missing event type is never taken.
pub closed_status-event :
    (s : String) (st : Status)
    → closed_status s ≡ some st
    → (is_open st ≡ false) × (event_type_map st ≢ none)
unfolding closed_status event_type_map
closed_status-event s st h = ground arith
