-- ===== src/Json/Read.antt =====
-- What code does with a value that it was given as JSON: `d.get(k)`, the tests on its class, its
-- truth. A number's text is the one that Python prints, so an `int` is digits after an optional
-- minus sign, and nothing else is. A mapping that was read has each key once.
use local_agent_runtime.Base.{
  ℕ, zero, suc, ◌==◌, any, String, Text, codes, ◌≡◌, Bool, true, false, not, Option, none, some,
  List, [], ◌∷◌, if◌then◌else◌, all, is_empty, str_eq, same_text, member, digits_value, ℤ, pos,
  negsuc,
}
use mathlib.Core.Option
use local_agent_runtime.Failure.{Failure, Result, ok, err}
use local_agent_runtime.Json.{
  Json, null, bool, num, nonfinite, str, arr, obj, Items, nil, cons, Fields, end, field,
}

-- `d.get(k)`
abbrev pub get : String → Fields → Option Json
get k end = none
get k (field j x fs) = if str_eq j k then some x else get k fs

-- `d.get(k)` where a missing key and `None` are treated alike
abbrev pub get_or_null : String → Fields → Json
get_or_null k fs = elim (get k fs) [ none ↦ null | some x ↦ x ]

abbrev pub field_names : Fields → List String
field_names end = []
field_names (field k x fs) = k ∷ field_names fs

-- `not set(d) - allowed`
abbrev pub only_fields : List String → Fields → Bool
only_fields allowed fs = all (λ k. member k allowed) (field_names fs)

-- `required <= set(d)`
abbrev pub has_fields : List String → Fields → Bool
has_fields required fs = all (λ k. member k (field_names fs)) required

abbrev pub item_list : Items → List Json
item_list nil = []
item_list (cons x xs) = x ∷ item_list xs

minus : ℕ → ℤ
minus n = elim n [ zero ↦ pos 0 | suc k ↦ negsuc k ]

int_text : Text → Option ℤ
unfolding minus digits_value
int_text [] = none
int_text (c ∷ s) =
    if c == b'-' then Option.map minus (digits_value s) else Option.map pos (digits_value (c ∷ s))

-- The value of an `int`; `type(x) is int` is that there is one.
unfoldable pub int_of : Json → Option ℤ
unfolding int_text
int_of (num n) = int_text n
int_of _ = none

-- An `int` that is not negative.
unfoldable pub count_of : Json → Option ℕ
unfolding int_of
count_of x = elim (int_of x) [ none ↦ none | some n ↦ elim n [ pos k ↦ some k | negsuc k ↦ none ] ]

abbrev pub text_of : Json → Option Text
text_of (str s) = some s
text_of _ = none

abbrev pub fields_of : Json → Option Fields
fields_of (obj fs) = some fs
fields_of _ = none

abbrev pub list_of : Json → Option (List Json)
list_of (arr xs) = some (item_list xs)
list_of _ = none

abbrev pub flag_of : Json → Option Bool
flag_of (bool b) = some b
flag_of _ = none

abbrev pub is_null : Json → Bool
is_null null = true
is_null _ = false

abbrev zero_texts : List Text
zero_texts = codes "0" ∷ codes "0.0" ∷ codes "-0.0" ∷ []

-- `x == 0`
abbrev pub equals_zero : Json → Bool
equals_zero (num n) = any (same_text n) zero_texts
equals_zero (bool b) = not b
equals_zero _ = false

-- `bool(x)`
abbrev pub is_truthy : Json → Bool
is_truthy null = false
is_truthy (bool b) = b
is_truthy (num n) = not (any (same_text n) zero_texts)
is_truthy (nonfinite n) = true
is_truthy (str s) = not (is_empty s)
is_truthy (arr xs) = not (is_empty (item_list xs))
is_truthy (obj fs) = not (is_empty (field_names fs))

-- `x == s` for a text
abbrev pub equals_text : Json → String → Bool
equals_text (str s) t = same_text s (codes t)
equals_text _ t = false

-- What stands there, or the failure that a missing or wrong value raises.
abbrev pub need {ℓ} : {A : Type ℓ} → Failure → Option A → Result A
need e none = err e
need e (some x) = ok x

pub need-some {ℓ} : {A : Type ℓ} (e : Failure) (o : Option A) {x : A} → need e o ≡ ok x → o ≡ some x
need-some e none h = cc
need-some e (some x) h = cc
