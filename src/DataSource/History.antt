-- ===== src/DataSource/History.antt =====
-- Lists of candles in the order of their times, and what a filter by a start keeps of them.
use quanteo.Base.{
  ℕ, zero, suc, ◌≤◌, ◌<◌, ◌≡◌, refl, ap, ◌∙◌, String, Bool, List, [], ◌∷◌, ◌++◌, leb, take, drop,
  length, All, arith, if_intro, Bool-cases, inl, inr,
}
use quanteo.MarketData.{Candle}
use quanteo.DataSource.{filter_if, is_from, insert_candle, sort_candles}

module _ {A : Type 0} where
  pub take-drop : (n : ℕ) (xs : List A) → take n xs ++ drop n xs ≡ xs
  take-drop zero xs = refl
  take-drop (suc n) [] = refl
  take-drop (suc n) (x ∷ xs) = ap (λ ys. x ∷ ys) (take-drop n xs)

  pub filter_if-append :
      (p : A → Bool) (xs ys : List A) → filter_if p (xs ++ ys) ≡ filter_if p xs ++ filter_if p ys
  filter_if-append p [] ys = refl
  filter_if-append p (x ∷ xs) ys = ground (arith, filter_if-append p xs ys)

  length-filter_if : (p : A → Bool) (xs : List A) → length (filter_if p xs) ≤ length xs
  length-filter_if p [] = omega arith
  length-filter_if p (x ∷ xs) = ground (arith, length-filter_if p xs)

  -- A filter that keeps the length keeps the list.
  filter_if-all :
      (p : A → Bool) (xs : List A) → length xs ≤ length (filter_if p xs) → filter_if p xs ≡ xs
  filter_if-all p [] h = refl
  filter_if-all p (x ∷ xs) h = elim (Bool-cases (p x)) [
    | inl e ↦ ground (arith, filter_if-all p xs (ground arith))
    | inr e ↦ ground (arith, length-filter_if p xs)
  ]

  All-first : (P : A → Type 0) (xs ys : List A) → All P (xs ++ ys) → All P xs
  All-first P [] ys h = tt
  All-first P (x ∷ xs) ys (h, hs) = (h, All-first P xs ys hs)

  pub All-map : {P P' : A → Type 0} (xs : List A) → All P xs → ((x : A) → P x → P' x) → All P' xs
  All-map [] h g = tt
  All-map (x ∷ xs) (h, hs) g = (g x h, All-map xs hs g)

  All-filter_if : (P : A → Type 0) (p : A → Bool) (xs : List A) → All P xs → All P (filter_if p xs)
  All-filter_if P p [] h = tt
  All-filter_if P p (x ∷ xs) (h, hs) =
      if_intro (All P) (p x) (x ∷ filter_if p xs) (filter_if p xs)
        (λ e. (h, All-filter_if P p xs hs)) (λ e. All-filter_if P p xs hs)

module _ {R : Type 0} (instant : String → ℕ) where
  abbrev time : Candle R → ℕ
  time c = instant c.timestamp

  -- Each candle is older than the next; `bound` is later than all.
  abbrev pub IsAscending : List (Candle R) → Type 0
  IsAscending [] = Unit
  IsAscending (c ∷ cs) = All (λ d. time c < time d) cs × IsAscending cs

  pub All-at :
      (P : Candle R → Type 0) (xs : List (Candle R)) (c : Candle R) (ys : List (Candle R))
      → All P (xs ++ c ∷ ys)
      → P c
  All-at P [] c ys (h, hs) = h
  All-at P (x ∷ xs) c ys (h, hs) = All-at P xs c ys hs

  pub IsAscending-before :
      (xs : List (Candle R)) (c : Candle R) (ys : List (Candle R))
      → IsAscending (xs ++ c ∷ ys)
      → All (λ d. time d < time c) xs × IsAscending xs × IsAscending (c ∷ ys)
  IsAscending-before [] c ys h = (tt, tt, h)
  IsAscending-before (x ∷ xs) c ys (first, h) =
      let (earlier, ascending, later) = IsAscending-before xs c ys h in
      (
        (All-at (λ d. time x < time d) xs c ys first, earlier),
        (All-first (λ d. time x < time d) xs (c ∷ ys) first, ascending),
        later,
      )

  insert_candle-first :
      (x : Candle R) (ys : List (Candle R))
      → All (λ d. time x < time d) ys
      → insert_candle instant x ys ≡ x ∷ ys
  unfolding insert_candle
  insert_candle-first x [] h = refl
  insert_candle-first x (y ∷ ys) (h, hs) = ground arith

  pub sort_candles-IsAscending :
      (cs : List (Candle R)) → IsAscending cs → sort_candles instant cs ≡ cs
  unfolding sort_candles
  sort_candles-IsAscending [] h = refl
  sort_candles-IsAscending (c ∷ cs) (first, h) =
      ap (insert_candle instant c) (sort_candles-IsAscending cs h) ∙ insert_candle-first c cs first

  pub IsAscending-filter_if :
      (p : Candle R → Bool) (cs : List (Candle R)) → IsAscending cs → IsAscending (filter_if p cs)
  IsAscending-filter_if p [] h = tt
  IsAscending-filter_if p (c ∷ cs) (first, h) =
      if_intro IsAscending (p c) (c ∷ filter_if p cs) (filter_if p cs)
        (λ e. (All-filter_if (λ d. time c < time d) p cs first, IsAscending-filter_if p cs h))
        (λ e. IsAscending-filter_if p cs h)

  module _ (s : ℕ) where
    filter_later :
        (cs : List (Candle R)) → All (λ c. s ≤ time c) cs → filter_if (is_from instant s) cs ≡ cs
    filter_later [] h = refl
    filter_later (c ∷ cs) (h, hs) = ground (arith, filter_later cs hs)

    filter_earlier :
        (cs : List (Candle R)) → All (λ c. time c < s) cs → filter_if (is_from instant s) cs ≡ []
    filter_earlier [] h = refl
    filter_earlier (c ∷ cs) (h, hs) = ground (arith, filter_earlier cs hs)

    -- If the filter drops a candle of a batch, then it drops the oldest one, and all before the batch.
    pub filter_rest :
        (rest : List (Candle R)) (b : Candle R) (bs : List (Candle R))
        → IsAscending (rest ++ b ∷ bs)
        → length (filter_if (is_from instant s) (b ∷ bs)) < length (b ∷ bs)
        → filter_if (is_from instant s) rest ≡ []
    filter_rest rest b bs h short =
        let (earlier, ascending, (first, later)) = IsAscending-before rest b bs h in
        elim (Bool-cases (leb s (time b))) [
          | inl young ↦
              let kept =
                filter_later (b ∷ bs) (ground arith, All-map bs first (λ c g. ground arith)) in
              ground (arith, ap length kept)
          | inr old ↦ filter_earlier rest (All-map rest earlier (λ c g. ground arith))
        ]
