-- ===== src/DataSource/Range.antt =====
-- `fetch_range` collects a range of the history from batches that go backwards.
use mathlib.Core.Path.{subst}
use quanteo.Base.{
  ℕ, zero, suc, ◌-◌, ◌*◌, ◌≤◌, ◌≡◌, refl, ap, sym, ◌∙◌, String, false, Option, none, some, List, [],
  ◌∷◌, ◌++◌, append_assoc, append-nil, ltb, last_n, take, drop, length, length-drop, length-take-le,
  All, arith, Bool-cases, inl, inr,
}
use quanteo.Base.Result.{ok}
use quanteo.MarketData.{Candle}
use quanteo.Toss.Call.{Call}
use quanteo.DataSource.{
  filter_if, batch_size, is_from, is_repeated, with_batch, range_loop, fetch_range, sort_candles,
}
use quanteo.DataSource.History.{
  take-drop, filter_if-append, All-map, IsAscending, All-at, IsAscending-before,
  sort_candles-IsAscending, IsAscending-filter_if, filter_rest,
}

module _ {R S : Type 0} (instant : String → ℕ)
    (page : (before : Option String) → Call S (List (Candle R))) (pause : S → S) where
  -- In every state, the page before `before` is the last batch of `older`.
  abbrev pub IsPage : (before : Option String) → (older : List (Candle R)) → Type 0
  IsPage before older = (σ : S) → (σ' : S) × (page before σ ≡ (ok (last_n batch_size older), σ'))

  -- The page before a candle of `history` is the last batch of the candles before it.
  abbrev pub IsServed : (history : List (Candle R)) → Type 0
  IsServed history =
      (older : List (Candle R)) (c : Candle R) (newer : List (Candle R))
      → older ++ c ∷ newer ≡ history
      → IsPage (some c.timestamp) older

  module _ (s : ℕ) where
    abbrev kept : List (Candle R) → List (Candle R)
    kept cs = filter_if (is_from instant s) cs

    abbrev Collects :
        ℕ → (before : Option String) → (prev : Option ℕ) → (all older : List (Candle R)) → Type 0
    Collects k before prev all older =
        (σ : S)
        → (σ' : S) × (range_loop instant page pause k (some s) before prev all σ
            ≡ (ok (kept older ++ all), σ'))

    All-none : (cs : List (Candle R)) → All (λ c. is_repeated none (instant c.timestamp) ≡ false) cs
    All-none [] = tt
    All-none (c ∷ cs) = (refl, All-none cs)

    -- One batch, with the rounds after it.
    batch_step :
        (k : ℕ) (rest : List (Candle R)) (b : Candle R) (bs : List (Candle R)) (prev : Option ℕ)
        (all : List (Candle R)) (σ : S)
        → IsAscending instant (rest ++ b ∷ bs)
        → is_repeated prev (instant b.timestamp) ≡ false
        → Collects k (some b.timestamp) (some (instant b.timestamp)) (kept (b ∷ bs) ++ all) rest
        → (σ' : S) × (with_batch instant page pause
              (some s)
              prev
              all
              (λ c all' σ.
                range_loop instant page pause k
                  (some s)
                  (some c.timestamp)
                  (some (instant c.timestamp))
                  all'
                  (pause σ))
              (b ∷ bs)
              σ
            ≡ (ok (kept (rest ++ b ∷ bs) ++ all), σ'))
    batch_step k rest b bs prev all σ h new later =
        let valid = kept (b ∷ bs) in
        let next : Candle R → List (Candle R) → Call S (List (Candle R)) = λ c all' σ.
          range_loop instant page pause k (some s) (some c.timestamp) (some (instant c.timestamp))
            all' (pause σ) in
        let whole : kept (rest ++ b ∷ bs) ++ all ≡ kept rest ++ (valid ++ all) =
          ap (λ x. x ++ all) (filter_if-append (is_from instant s) rest (b ∷ bs))
          ∙ append_assoc (kept rest) valid all in
        elim (Bool-cases (ltb (length valid) (length (b ∷ bs)))) [
          | inl short ↦ (
            σ,
            rw (new, short)
                (ap (λ x. (ok x, σ))
                  (sym (
                    whole
                    ∙ ap (λ x. x ++ (valid ++ all))
                        (filter_rest instant s rest b bs h (ground arith))))),
          )
          | inr full ↦
              let (σ', run) = later (pause σ) in
              (σ', rw (new, full) (run ∙ ap (λ x. (ok x, σ')) (sym whole)))
        ]

    -- The batch is cut off the end of what is older.
    cut_step :
        (k : ℕ) (rest batch older all : List (Candle R)) (prev : Option ℕ) (σ : S)
        → rest ++ batch ≡ older
        → length batch ≡ length older - (length older - batch_size)
        → IsAscending instant older
        → All (λ (c : Candle R). is_repeated prev (instant c.timestamp) ≡ false) older
        → ((b : Candle R) (bs : List (Candle R))
            → batch ≡ b ∷ bs
            → Collects k (some b.timestamp) (some (instant b.timestamp)) (kept batch ++ all) rest)
        → (σ' : S) × (with_batch instant page pause
              (some s)
              prev
              all
              (λ c all' σ.
                range_loop instant page pause k
                  (some s)
                  (some c.timestamp)
                  (some (instant c.timestamp))
                  all'
                  (pause σ))
              batch
              σ
            ≡ (ok (kept older ++ all), σ'))
    cut_step k rest [] [] all prev σ same long h new later = (σ, refl)
    cut_step k rest [] (x ∷ xs) all prev σ same long h new later = ground arith
    cut_step k rest (b ∷ bs) older all prev σ same long h new later =
        let (σ', run) =
          batch_step k rest b bs prev all σ (subst (IsAscending instant) (sym same) h)
            (All-at instant (λ (c : Candle R). is_repeated prev (instant c.timestamp) ≡ false) rest
              b bs
              (subst (All (λ (c : Candle R). is_repeated prev (instant c.timestamp) ≡ false))
                (sym same) new))
            (later b bs refl) in
        (σ', run ∙ ap (λ x. (ok (kept x ++ all), σ')) same)

    range_loop-Collects :
        (k : ℕ) (older all : List (Candle R)) (before : Option String) (prev : Option ℕ)
        → IsPage before older
        → IsServed older
        → IsAscending instant older
        → All (λ (c : Candle R). is_repeated prev (instant c.timestamp) ≡ false) older
        → length older ≤ batch_size * k
        → Collects k before prev all older
    unfolding range_loop
    range_loop-Collects zero [] all before prev paged served h new few σ = (σ, refl)
    range_loop-Collects zero (x ∷ xs) all before prev paged served h new few σ = ground arith
    range_loop-Collects (suc k) older all before prev paged served h new few σ =
        let n = length older - batch_size in
        let rest = take n older in
        let batch = drop n older in
        let split : rest ++ batch ≡ older = take-drop n older in
        let (σ1, got) = paged σ in
        let (σ', run) =
          cut_step k rest batch older all prev σ1 split (length-drop n older) h new
            (λ b bs is_batch.
              let whole : rest ++ b ∷ bs ≡ older = ap (λ x. rest ++ x) (sym is_batch) ∙ split in
              let (earlier, ascending, later) =
                IsAscending-before instant rest b bs (subst (IsAscending instant) (sym whole) h) in
              range_loop-Collects k rest (kept batch ++ all) (some b.timestamp)
                (some (instant b.timestamp)) (served rest b bs whole)
                (λ older' c newer same. served older' c (newer ++ b ∷ bs) (
                  sym (append_assoc older' (c ∷ newer) (b ∷ bs))
                  ∙ ap (λ x. x ++ b ∷ bs) same
                  ∙ whole))
                ascending (All-map rest earlier (λ c g. ground arith))
                (omega (arith, length-take-le n older))) in
        (σ', rw got run)

  -- Let `older` be the candles before the end date, each older than the next and at most 100,000 of
  -- them. If in every state the page before the end date, and the page before one of these candles, holds the latest 200
  -- candles before it, oldest first: `fetch_range` returns exactly the candles from the start
  -- on, each once and in order, for every start date and from every state.
  pub fetch_range-from :
      (start : ℕ) (end_date : Option String) (older : List (Candle R)) (σ : S)
      → IsPage end_date older
      → IsServed older
      → IsAscending instant older
      → length older ≤ 100000
      → (σ' : S) × (fetch_range instant page pause (some start) end_date σ
          ≡ (ok (filter_if (is_from instant start) older), σ'))
  unfolding fetch_range
  fetch_range-from start end_date older σ paged served h few =
      let wanted = filter_if (is_from instant start) older in
      let (σ', run) =
        range_loop-Collects start 500 older [] end_date none paged served h (All-none start older)
          (omega arith) σ in
      (
        σ',
        rw run (
            ap (λ cs. (ok cs, σ'))
              (ap (sort_candles instant) (append-nil wanted)
                ∙ sort_candles-IsAscending instant wanted
                    (IsAscending-filter_if instant (is_from instant start) older h))),
      )
