-- ===== src/DataSource/Tests.antt =====
-- Two days of history, of which the second is asked for.
use quanteo.Base.{
  ℕ, ◌≡◌, ◌∙◌, refl, ap, sym, String, Option, none, some, List, [], ◌∷◌, str_eq, length,
  length-append, arith, if◌then◌else◌,
}
use quanteo.Base.Int.{pos}
use quanteo.Base.Result.{Result, ok}
use quanteo.Float.Won.{Won}
use quanteo.Domain.{domestic}
use quanteo.MarketData.{Candle}
use quanteo.DataSource.{fetch_range}
use quanteo.DataSource.Range.{IsServed, fetch_range-from}

abbrev candle : String → Candle Won
candle ts = record {
  symbol = "A";
  open_price = pos 100;
  high = pos 105;
  low = pos 95;
  close = pos 102;
  volume = pos 10;
  timestamp = ts;
  market = domestic;
}

abbrev both : List (Candle Won)
both = candle "d1" ∷ candle "d2" ∷ []

abbrev instant : String → ℕ
instant t = if str_eq t "d1" then 1 else 2

abbrev page_before : String → List (Candle Won)
page_before t = if str_eq t "d1" then [] else candle "d1" ∷ []

abbrev page : Option String → ℕ → Result (List (Candle Won)) × ℕ
page none σ = (ok both, σ)
page (some t) σ = (ok (page_before t), σ)

abbrev pause : ℕ → ℕ
pause σ = σ

abbrev head_stamp : List (Candle Won) → String
head_stamp [] = ""
head_stamp (c ∷ cs) = c.timestamp

abbrev tail : List (Candle Won) → List (Candle Won)
tail [] = []
tail (c ∷ cs) = cs

abbrev heads : List (Candle Won) → List (Candle Won)
heads [] = []
heads (c ∷ cs) = c ∷ []

served : IsServed instant page pause both
served [] c newer same σ = (σ, ap (λ cs. page (some (head_stamp cs)) σ) same)
served (x ∷ []) c newer same σ = (
  σ,
  ap (λ cs. page (some (head_stamp (tail cs))) σ) same ∙ ap (λ cs. (ok (heads cs), σ)) (sym same),
)
served (x ∷ y ∷ zs) c newer same σ =
    (σ, ground (arith, ap length same, length-append zs (c ∷ newer)))

fetch_range-from_example :
    (σ' : ℕ) × (fetch_range instant page pause (some 2) none 0 ≡ (ok (candle "d2" ∷ []), σ'))
fetch_range-from_example =
    fetch_range-from instant page pause 2 none both 0 (λ σ. (σ, refl)) served
      ((omega arith, tt), (tt, tt)) (omega arith)
