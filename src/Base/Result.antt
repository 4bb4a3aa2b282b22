-- ===== src/Base/Result.antt =====
-- The outcome of a Python call: a value, or an exception of one of the classes that the code raises
-- or catches. Messages are kept where the code passes them on.
-- `type_error` stands for AttributeError and KeyError too.
use mathlib.Core.Bool.{Bool, true, false}
use Prim.Native.String.{String}
use native.Mathlib.Omega.{arith}
use mathlib.Core.Path.{◌≡◌, refl}

pub data Error : Type 0 where
  value_error runtime_error integrity_error conflict_error http_error : Error
  type_error arithmetic_error : Error
  broker_error : String → Error

pub data Result {ℓ} (V : Type ℓ) : Type ℓ where
  err : (raised : Error) → Result V
  ok : (value : V) → Result V

-- A call whose exception is passed on.
infixl 5 ◌>>=◌
abbrev pub ◌>>=◌ {ℓ κ} : {V : Type ℓ} {W : Type κ} → Result V → (V → Result W) → Result W
err raised >>= rest = err raised
ok value >>= rest = rest value

abbrev pub is_ok {ℓ} : {V : Type ℓ} → Result V → Bool
is_ok (ok v) = true
is_ok (err e) = false

-- A bind that succeeds: both of its parts do.
pub >>=-eq-ok {ℓ κ} :
    {V : Type ℓ} {W : Type κ} (call : Result V) (next : V → Result W) {w : W}
    → (call >>= next) ≡ ok w
    → (v : V) × (call ≡ ok v) × (next v ≡ ok w)
>>=-eq-ok (err raised) next h = cc
>>=-eq-ok (ok v) next h = (v, refl, h)

pub ok_injective {ℓ} : {V : Type ℓ} {v w : V} → ok v ≡ ok w → v ≡ w
ok_injective h = ground arith
