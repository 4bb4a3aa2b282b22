-- ===== src/Store/Watchlist.antt =====
-- core/store/db.py: the watch list. The time is an argument; a snapshot is its JSON text.
use quanteo.Base.{
  ◌≡◌, String, Bool, false, Option, none, some, List, [], ◌∷◌, str_eq, eq_iff, arith, if◌then◌else◌,
}
use quanteo.Base.Result.{Result, ok, err, integrity_error}

pub record WatchlistEntry : Type 0 where
  pub symbol : String
  pub name : String
  pub added_at : String
  pub source : String
  pub score_snapshot : String

-- ON CONFLICT(symbol): the source stays that of the first entry.
unfoldable pub upsert_entry : WatchlistEntry → List WatchlistEntry → List WatchlistEntry
upsert_entry e [] = e ∷ []
upsert_entry e (old ∷ rest) =
    let later = upsert_entry e rest in
    if str_eq old.symbol e.symbol then record e { source = old.source } ∷ rest else old ∷ later

-- The CHECK of the column allows one source.
unfoldable pub upsert_watchlist :
    WatchlistEntry → List WatchlistEntry → Result (List WatchlistEntry)
unfolding upsert_entry
upsert_watchlist e es =
    if str_eq e.source "screener" then ok (upsert_entry e es) else err integrity_error

module _ (earlier : String → String → Bool) where
  -- ORDER BY added_at; `earlier` is `<` on texts.
  unfoldable pub insert_entry : WatchlistEntry → List WatchlistEntry → List WatchlistEntry
  insert_entry e [] = e ∷ []
  insert_entry e (x ∷ xs) =
      let later = insert_entry e xs in
      if earlier x.added_at e.added_at then x ∷ later else e ∷ x ∷ xs

  unfoldable pub get_watchlist : List WatchlistEntry → List WatchlistEntry
  unfolding insert_entry
  get_watchlist [] = []
  get_watchlist (e ∷ es) = insert_entry e (get_watchlist es)

unfoldable entry_of : String → List WatchlistEntry → Option WatchlistEntry
entry_of symbol [] = none
entry_of symbol (e ∷ es) = if str_eq e.symbol symbol then some e else entry_of symbol es

-- The other entries are left alone.
entry_of-upsert_entry :
    (e : WatchlistEntry) (symbol : String) (es : List WatchlistEntry)
    → str_eq e.symbol symbol ≡ false
    → entry_of symbol (upsert_entry e es) ≡ entry_of symbol es
unfolding entry_of upsert_entry
entry_of-upsert_entry e symbol [] other = ground arith
entry_of-upsert_entry e symbol (old ∷ rest) other =
    ground (arith, eq_iff old.symbol e.symbol, entry_of-upsert_entry e symbol rest other)
