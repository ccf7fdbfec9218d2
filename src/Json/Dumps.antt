-- ===== src/Json/Dumps.antt =====
-- `json.dumps` of the standard library: its separators, its escapes and its `allow_nan`.
use local_agent_runtime.Base.{
  ℕ, ◌+◌, ◌-◌, ◌/◌, ◌%◌, Text, codes, Bool, true, false, ◌&&◌, ◌||◌, [], ◌∷◌, ◌++◌, ltb, leb, ◌==◌,
  if◌then◌else◌,
}
use local_agent_runtime.Failure.{Result, ok, err, crash}
use local_agent_runtime.Json.{
  Json, null, bool, num, nonfinite, str, arr, obj, Items, nil, cons, Fields, end, field,
}

-- the keyword arguments of `dumps`
pub record Style : Type 0 where
  pub item_separator : Text
  pub key_separator : Text
  pub ensure_ascii : Bool

abbrev pub compact : Style
compact = record { item_separator = codes ","; key_separator = codes ":"; ensure_ascii = false }

abbrev pub spaced : Style
spaced = record { item_separator = codes ", "; key_separator = codes ": "; ensure_ascii = false }

-- the default of `dumps`
abbrev pub default_style : Style
default_style = record {
  item_separator = codes ", ";
  key_separator = codes ": ";
  ensure_ascii = true;
}

abbrev pub compact_ascii : Style
compact_ascii = record {
  item_separator = codes ",";
  key_separator = codes ":";
  ensure_ascii = true;
}

hex_digit : ℕ → ℕ
hex_digit d = if ltb d 10 then d + 48 else d + 87

-- `\uXXXX`
unicode_escape : ℕ → Text
unfolding hex_digit
unicode_escape c =
    92
    ∷ b'u'
    ∷ hex_digit (c / 4096 % 16)
    ∷ hex_digit (c / 256 % 16)
    ∷ hex_digit (c / 16 % 16)
    ∷ hex_digit (c % 16)
    ∷ []

-- a code point beyond the basic plane is a surrogate pair
ascii_escape : ℕ → Text
unfolding unicode_escape
ascii_escape c =
    if ltb c 65536
    then unicode_escape c
    else unicode_escape (55296 + (c - 65536) / 1024) ++ unicode_escape (56320 + (c - 65536) % 1024)

escape_char : Bool → ℕ → Text
unfolding ascii_escape
escape_char ensure_ascii c =
    if c == 34 || c == 92
    then 92 ∷ c ∷ []
    else if c == 10
    then 92 ∷ b'n' ∷ []
    else if c == 13
    then 92 ∷ b'r' ∷ []
    else if c == 9
    then 92 ∷ b't' ∷ []
    else if c == 12
    then 92 ∷ b'f' ∷ []
    else if c == 8
    then 92 ∷ b'b' ∷ []
    else if ltb c 32
    then unicode_escape c
    else if ensure_ascii && leb 127 c
    then ascii_escape c
    else c ∷ []

escape : Bool → Text → Text
unfolding escape_char
escape ensure_ascii [] = []
escape ensure_ascii (c ∷ s) = escape_char ensure_ascii c ++ escape ensure_ascii s

pub quote : Bool → Text → Text
unfolding escape
quote ensure_ascii s = 34 ∷ (escape ensure_ascii s ++ 34 ∷ [])

unfoldable mutual
  unfolding quote

  pub dumps : Style → Json → Text
  dumps style null = codes "null"
  dumps style (bool true) = codes "true"
  dumps style (bool false) = codes "false"
  dumps style (num n) = n
  dumps style (nonfinite n) = n
  dumps style (str s) = quote style.ensure_ascii s
  dumps style (arr xs) = b'[' ∷ (dumps_items style xs ++ b']' ∷ [])
  dumps style (obj fs) = b'{' ∷ (dumps_fields style fs ++ b'}' ∷ [])

  pub dumps_items : Style → Items → Text
  dumps_items style nil = []
  dumps_items style (cons x nil) = dumps style x
  dumps_items style (cons x (cons y xs)) =
      dumps style x ++ (style.item_separator ++ dumps_items style (cons y xs))

  pub dumps_fields : Style → Fields → Text
  dumps_fields style end = []
  dumps_fields style (field k x end) =
      quote style.ensure_ascii (codes k) ++ (style.key_separator ++ dumps style x)
  dumps_fields style (field k x (field j y fs)) =
      quote style.ensure_ascii (codes k)
      ++ (style.key_separator
          ++ (dumps style x ++ (style.item_separator ++ dumps_fields style (field j y fs))))

unfoldable mutual
  pub is_finite : Json → Bool
  is_finite (nonfinite n) = false
  is_finite (arr xs) = is_finite_items xs
  is_finite (obj fs) = is_finite_fields fs
  is_finite _ = true

  pub is_finite_items : Items → Bool
  is_finite_items nil = true
  is_finite_items (cons x xs) = is_finite x && is_finite_items xs

  pub is_finite_fields : Fields → Bool
  is_finite_fields end = true
  is_finite_fields (field k x fs) = is_finite x && is_finite_fields fs

-- `dumps(value, allow_nan=False)`
unfoldable pub dumps_finite : Style → Json → Result Text
unfolding dumps is_finite
dumps_finite style value =
    if is_finite value then ok (dumps style value) else err (crash "ValueError")
