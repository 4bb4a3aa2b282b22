-- ===== src/Toss/Call.antt =====
-- A method that changes a state and returns a value or raises; what happened to the state before
-- the exception stays.
use quanteo.Base.{ℕ, ◌+◌, ◌≤◌, arith, List, [], ◌∷◌}
use quanteo.Base.Result.{Error, Result, ok, err}

abbrev pub Call : Type 0 → Type 0 → Type 0
Call S V = S → Result V × S

abbrev pub after : {S V X : Type 0} → (V → Call S X) → Result V × S → Result X × S
after next (err e, s) = (err e, s)
after next (ok v, s) = next v s

infixl 5 ◌>>=◌ ◌>>◌
abbrev pub ◌>>=◌ : {S V X : Type 0} → Call S V → (V → Call S X) → Call S X
◌>>=◌ call next s = after next (call s)

abbrev pub ◌>>◌ : {S V X : Type 0} → Call S V → Call S X → Call S X
◌>>◌ call next s = after (λ v. next) (call s)

abbrev pub pure : {S V : Type 0} → V → Call S V
pure v s = (ok v, s)

abbrev pub lift : {S V : Type 0} → Result V → Call S V
lift r s = (r, s)

abbrev pub raise : {S V : Type 0} → Error → Call S V
raise e s = (err e, s)

abbrev cons_result : {V : Type 0} → Result V → Result (List V) → Result (List V)
cons_result (err e) r = err e
cons_result (ok v) (err e) = err e
cons_result (ok v) (ok vs) = ok (v ∷ vs)

-- `[f(x) for x in xs]`, up to the first exception.
abbrev pub traverse : {A V : Type 0} → (A → Result V) → List A → Result (List V)
traverse f [] = ok []
traverse f (x ∷ xs) = cons_result (f x) (traverse f xs)

-- A bound on what both parts of a call add to a measure of the state.
pub after-measure :
    {S V X : Type 0} (measure : S → ℕ) (k : ℕ) (next : V → Call S X) (r : Result V × S)
    → ((v : V) (s : S) → measure (next v s).1 ≤ measure s + k)
    → measure (after next r).1 ≤ measure r.1 + k
after-measure measure k next (err e, s) h = omega arith
after-measure measure k next (ok v, s) h = h v s
