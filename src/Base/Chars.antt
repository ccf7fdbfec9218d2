-- ===== src/Base/Chars.antt =====
-- Text to and from the native strings, and what Python's `str` methods do to text. A lone
-- surrogate, which a Python `str` may hold, is no character of a native string: it is read as
-- U+FFFD.
use Prim.Native.Nat.{ℕ, zero, suc, ◌+◌, ◌-◌, ◌*◌, ◌/◌, ◌%◌, compare, Ordering}
use Prim.Native.Char.{Char, char, IsLt, IsScalar}
use Prim.Native.String.{String}
use mathlib.Core.Bool.{Bool, true, false, ◌&&◌}
use mathlib.Core.List.{[], ◌∷◌, reverse}
use mathlib.Core.Option.{Option, none, some}
use local_agent_runtime.Base.Tests.{leb, ltb, ◌==◌, if◌then◌else◌}
use local_agent_runtime.Base.Strings.{Text, is_space}

abbrev replacement : Char
replacement = char 0xfffd tt

abbrev BothLt : Ordering → Ordering → Type 0
BothLt Ordering.lt o = IsLt o
BothLt Ordering.eq o = ⊥
BothLt Ordering.gt o = ⊥

abbrev Scalar : Ordering → Ordering → Ordering → Type 0
Scalar Ordering.lt o p = Unit
Scalar Ordering.eq o p = BothLt o p
Scalar Ordering.gt o p = BothLt o p

-- The character of a code point above the surrogates' first.
abbrev high_char : (n : ℕ) (o p : Ordering) → (BothLt o p → IsScalar n) → Char
high_char n Ordering.lt Ordering.lt valid = char n (valid tt)
high_char n Ordering.lt Ordering.eq valid = replacement
high_char n Ordering.lt Ordering.gt valid = replacement
high_char n Ordering.eq p valid = replacement
high_char n Ordering.gt p valid = replacement

abbrev char_if : (n : ℕ) (o p q : Ordering) → (Scalar o p q → IsScalar n) → Char
char_if n Ordering.lt p q valid = char n (valid tt)
char_if n Ordering.eq p q valid = high_char n p q valid
char_if n Ordering.gt p q valid = high_char n p q valid

abbrev pub char_of : ℕ → Char
char_of n = char_if n (compare n 55296) (compare 57343 n) (compare n 1114112) (λ h. h)

abbrev pub string_of : Text → String
string_of [] = String.[]
string_of (c ∷ s) = String.◌∷◌ (char_of c) (string_of s)

abbrev pub drop_space : Text → Text
drop_space [] = []
drop_space (c ∷ s) = let rest = drop_space s in if is_space c then rest else c ∷ s

-- `s.strip()`
unfoldable pub strip : Text → Text
unfolding is_space
strip s = reverse (drop_space (reverse (drop_space s)))

abbrev pub starts_with : Text → Text → Bool
starts_with [] s = true
starts_with (p ∷ ps) [] = false
starts_with (p ∷ ps) (c ∷ s) = p == c && starts_with ps s

digit_of : ℕ → Option ℕ
digit_of c = if leb b'0' c && leb c b'9' then some (c - b'0') else none

digits_from : ℕ → Text → Option ℕ
unfolding digit_of
digits_from n [] = some n
digits_from n (c ∷ s) = elim (digit_of c) [ none ↦ none | some d ↦ digits_from (n * 10 + d) s ]

-- The number that a text of digits alone writes.
unfoldable pub digits_value : Text → Option ℕ
unfolding digits_from
digits_value [] = none
digits_value (c ∷ s) = digits_from 0 (c ∷ s)

abbrev pub decimal_from : (fuel : ℕ) → ℕ → Text → Text
decimal_from zero n shown = shown
decimal_from (suc fuel) n shown =
    let more = decimal_from fuel (n / 10) ((48 + n % 10) ∷ shown) in
    if ltb n 10 then (48 + n) ∷ shown else more

-- `str(n)`; a number has at most as many digits as its successor counts.
abbrev pub decimal : ℕ → Text
decimal n = decimal_from (suc n) n []
