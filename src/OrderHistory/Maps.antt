-- ===== src/OrderHistory/Maps.antt =====
-- The two feeds that write statuses agree.
use mathlib.Core.Path.{subst}
use quanteo.Base.{
  ◌≡◌, ◌∙◌, refl, String, some, List, [], ◌∷◌, str_eq, eq_iff, All, Bool-cases, inl, inr,
}
use quanteo.Domain.{Status, get}
use quanteo.OrderSync.{closed_status, closed_status_map}
use quanteo.OrderHistory.{local_status}

get-local_status :
    (m : List (String × Status)) (s : String) (st : Status)
    → All (λ e. local_status e.0 ≡ some e.1) m
    → get s m ≡ some st
    → local_status s ≡ some st
unfolding get
get-local_status [] s st a h = cc
get-local_status ((k, v) ∷ m) s st (a, as_rest) h = elim (Bool-cases (str_eq k s)) [
  | inl same ↦ subst (λ t. local_status t ≡ some st) ((eq_iff k s).0 same) (a ∙ (simp same at h))
  | inr other ↦ get-local_status m s st as_rest (simp other at h)
]

-- A broker status that `OrderSyncFeed` takes as closed is mapped to the same local status by
-- `OrderHistorySyncFeed`: the feeds do not overwrite each other with different closed statuses.
pub closed_status-local_status :
    (s : String) (st : Status) → closed_status s ≡ some st → local_status s ≡ some st
unfolding closed_status local_status
closed_status-local_status s st h =
    get-local_status closed_status_map s st (refl, (refl, (refl, (refl, tt)))) h
