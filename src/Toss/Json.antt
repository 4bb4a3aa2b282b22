-- ===== src/Toss/Json.antt =====
-- The values that the `json` module reads, and what core/adapters/toss does with them: `get`, `in`,
-- the truth value. A number is a value of the type `R`; the keys of an object are taken as distinct.
use package.text.Mathlib.Text.{starts_with}
use quanteo.Base.{
  String, Bool, true, false, not, ◌||◌, Option, none, some, List, [], ◌∷◌, str_eq, if◌then◌else◌,
}
use quanteo.Base.Result.{Result, ok, err, type_error}
use quanteo.Float.{Float, nought}

mutual
  pub data Json (R : Type 0) : Type 0 where
    null : Json R
    bool : Bool → Json R
    number : R → Json R
    text : String → Json R
    array : Items R → Json R
    object : Fields R → Json R

  pub data Items (R : Type 0) : Type 0 where
    end : Items R
    item : Json R → Items R → Items R

  pub data Fields (R : Type 0) : Type 0 where
    no_field : Fields R
    field : String → Json R → Fields R → Fields R

-- `k in s` of two texts.
unfoldable pub has_part : String → String → Bool
has_part k String.[] = str_eq k ""
has_part k (String.◌∷◌ c s) = starts_with (String.◌∷◌ c s) k || has_part k s

module _ {R : Type 0} where
  unfoldable pub lookup : String → Fields R → Option (Json R)
  lookup k no_field = none
  lookup k (field j v fs) = if str_eq j k then some v else lookup k fs

  abbrev pub or_default : Json R → Option (Json R) → Json R
  or_default d none = d
  or_default d (some v) = v

  -- `j.get(k, d)`
  unfoldable pub get_or : String → Json R → Json R → Result (Json R)
  unfolding lookup
  get_or k d (object fs) = ok (or_default d (lookup k fs))
  get_or k d j = err type_error

  abbrev pub get_opt : String → Json R → Result (Json R)
  get_opt k j = get_or k null j

  abbrev pub required : Option (Json R) → Result (Json R)
  required none = err type_error
  required (some v) = ok v

  -- `j[k]`
  unfoldable pub get_key : String → Json R → Result (Json R)
  unfolding lookup
  get_key k (object fs) = required (lookup k fs)
  get_key k j = err type_error

  unfoldable pub has_text : String → Items R → Bool
  has_text k end = false
  has_text k (item (text s) js) = str_eq s k || has_text k js
  has_text k (item j js) = has_text k js

  abbrev is_present : Option (Json R) → Bool
  is_present none = false
  is_present (some v) = true

  -- `k in j`: a key of an object, an element of a list, a part of a text.
  unfoldable pub contains : String → Json R → Result Bool
  unfolding lookup has_text has_part
  contains k (object fs) = ok (is_present (lookup k fs))
  contains k (array js) = ok (has_text k js)
  contains k (text s) = ok (has_part k s)
  contains k j = err type_error

  abbrev pub to_list : Items R → List (Json R)
  to_list end = []
  to_list (item j js) = j ∷ to_list js

  -- `for x in j`, for a loop that starts with `x.get`: over the keys of an object or the letters of
  -- a text it raises there.
  unfoldable pub elements : Json R → Result (List (Json R))
  elements (array js) = ok (to_list js)
  elements (object no_field) = ok []
  elements (text s) = if str_eq s "" then ok [] else err type_error
  elements j = err type_error

  -- `j[0]`, for a use that goes on with `.get` or a key.
  unfoldable pub first_element : Json R → Result (Json R)
  first_element (array (item j js)) = ok j
  first_element j = err type_error

  abbrev pub empty_list : Json R
  empty_list = array end

  -- `j == s`
  unfoldable pub is_text : Json R → String → Bool
  is_text (text t) s = str_eq t s
  is_text j s = false

  abbrev pub empty_object : Json R
  empty_object = object no_field

  abbrev pub is_null : Json R → Bool
  is_null null = true
  is_null j = false

  abbrev is_no_item : Items R → Bool
  is_no_item end = true
  is_no_item (item j js) = false

  abbrev is_no_field : Fields R → Bool
  is_no_field no_field = true
  is_no_field (field k v fs) = false

  -- The truth value of `j`.
  unfoldable pub is_true : ⦃f : Float R⦄ → Json R → Bool
  is_true null = false
  is_true (bool b) = b
  is_true ⦃f⦄ (number x) = not (f.eq x nought)
  is_true (text s) = not (str_eq s "")
  is_true (array js) = not (is_no_item js)
  is_true (object fs) = not (is_no_field fs)
