-- ===== src/Base/Strings.antt =====
-- Text two ways: code points where the program measures or cuts it, and the native `String` for
-- identifiers, keys and codes, which are only compared.
use Prim.Native.Nat.{ℕ}
use Prim.Native.Char.{code}
use Prim.Native.String.{String}
use mathlib.Core.Bool.{Bool, true, false, ◌&&◌, ◌||◌}
use mathlib.Core.Path.{◌≡◌, subst}
use mathlib.Core.Logic.{inl, inr}
use mathlib.Core.Option.{Option, none, some}
use mathlib.Core.List.{List, [], ◌∷◌}
use text.Mathlib.Text.{◌==◌ as text_eq}
use local_agent_runtime.Base.Tests.{Bool-cases, leb, ◌==◌, if◌then◌else◌}
use local_agent_runtime.Base.Lists.{length, all}

abbrev pub Text : Type 0
Text = List ℕ

abbrev pub str_eq : String → String → Bool
str_eq a b = text_eq a b

abbrev pub codes : String → Text
codes String.[] = []
codes (String.◌∷◌ c s) = code c ∷ codes s

-- `s == t` on texts
abbrev pub same_text : Text → Text → Bool
same_text [] [] = true
same_text (a ∷ s) (b ∷ t) = a == b && same_text s t
same_text _ _ = false

-- `len(s)` of an identifier
abbrev pub len : String → ℕ
len s = length (codes s)

-- the characters that `str.strip` removes
unfoldable pub is_space : ℕ → Bool
is_space c =
    (leb 9 c && leb c 13)
    || (leb 28 c && leb c 32)
    || c == 0x85
    || c == 0xa0
    || c == 0x1680
    || (leb 0x2000 c && leb c 0x200a)
    || c == 0x2028
    || c == 0x2029
    || c == 0x202f
    || c == 0x205f
    || c == 0x3000

-- `not s.strip()`
unfoldable pub is_blank : Text → Bool
unfolding is_space
is_blank s = all is_space s

-- A dictionary with text keys, in insertion order: `d.get(k)`, `d[k] = v`, `del d[k]`.
module _ {ℓ} {V : Type ℓ} where
  abbrev pub lookup : String → List (String × V) → Option V
  lookup k [] = none
  lookup k ((j, v) ∷ m) = if str_eq j k then some v else lookup k m

  abbrev pub put : String → V → List (String × V) → List (String × V)
  put k v [] = (k, v) ∷ []
  put k v ((j, w) ∷ m) = let rest = put k v m in if str_eq j k then (j, v) ∷ m else (j, w) ∷ rest

  abbrev pub without : String → List (String × V) → List (String × V)
  without k [] = []
  without k ((j, v) ∷ m) = let rest = without k m in if str_eq j k then rest else (j, v) ∷ rest

  abbrev pub values : List (String × V) → List V
  values [] = []
  values ((k, v) ∷ m) = v ∷ values m

  abbrev pub keys : List (String × V) → List String
  keys [] = []
  keys ((k, v) ∷ m) = k ∷ keys m

  abbrev pub has_key : String → List (String × V) → Bool
  has_key k [] = false
  has_key k ((j, v) ∷ m) = str_eq j k || has_key k m

-- `s in names`
abbrev pub member : String → List String → Bool
member s [] = false
member s (t ∷ ts) = str_eq s t || member s ts

pub some_eq {ℓ} : {A : Type ℓ} {a b : A} → some a ≡ some b → a ≡ b
some_eq h = cc

module _ {ℓ κ} {V : Type ℓ} (P : V → Type κ) where
  -- A property of every value of a dictionary.
  abbrev pub AllValues : List (String × V) → Type κ
  AllValues [] = Unit
  AllValues ((k, v) ∷ m) = P v × AllValues m

  pub AllValues-lookup :
      (k : String) (m : List (String × V)) {v : V} → AllValues m → lookup k m ≡ some v → P v
  AllValues-lookup k [] h e = cc
  AllValues-lookup k ((j, w) ∷ m) h e = elim (Bool-cases (str_eq j k)) [
    | inl same ↦ subst P (some_eq (rw same at e)) h.0
    | inr other ↦ AllValues-lookup k m h.1 (rw other at e)
  ]

  pub AllValues-put :
      (k : String) (v : V) (m : List (String × V)) → AllValues m → P v → AllValues (put k v m)
  AllValues-put k v [] h p = (p, tt)
  AllValues-put k v ((j, w) ∷ m) h p = elim (Bool-cases (str_eq j k)) [
    | inl same ↦ rw same (p, h.1)
    | inr other ↦ rw other (h.0, AllValues-put k v m h.1 p)
  ]

  pub AllValues-without :
      (k : String) (m : List (String × V)) → AllValues m → AllValues (without k m)
  AllValues-without k [] h = tt
  AllValues-without k ((j, w) ∷ m) h = elim (Bool-cases (str_eq j k)) [
    | inl same ↦ rw same (AllValues-without k m h.1)
    | inr other ↦ rw other (h.0, AllValues-without k m h.1)
  ]
