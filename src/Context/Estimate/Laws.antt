-- ===== src/Context/Estimate/Laws.antt =====
-- The text estimate against a count of each class of characters, and how it grows.
use local_agent_runtime.Base.{
  ℕ, ◌+◌, ◌*◌, ◌≤◌, Text, ◌≡◌, refl, true, [], ◌∷◌, ◌++◌, arith, ltb, Bool-cases, inl, inr, length,
  sum_of, sum_of-append, if◌then◌else◌,
}
use local_agent_runtime.Context.Estimate.{
  ceil_third, is_ascii, count_classes, estimate_text_tokens, output_margin,
}

-- How many characters of a text are ASCII, below U+2000, and beyond.
abbrev ascii_one : ℕ → ℕ
ascii_one c = if ltb c 128 then 1 else 0

abbrev alphabetic_one : ℕ → ℕ
alphabetic_one c = if ltb c 128 then 0 else if ltb c 8192 then 1 else 0

abbrev other_one : ℕ → ℕ
other_one c = if ltb c 128 then 0 else if ltb c 8192 then 0 else 1

unfoldable pub class_cost : Text → ℕ
class_cost s = ceil_third (sum_of ascii_one s) + sum_of alphabetic_one s + 3 * sum_of other_one s

count_classes-eq :
    (s : Text) (a b c : ℕ)
    → count_classes s a b c
      ≡ ceil_third (a + sum_of ascii_one s)
        + (b + sum_of alphabetic_one s)
        + 3 * (c + sum_of other_one s)
unfolding count_classes
count_classes-eq [] a b c = omega arith
count_classes-eq (x ∷ s) a b c = elim (Bool-cases (ltb x 128)) [
  | inl ascii ↦ rw ascii (omega (arith, count_classes-eq s (a + 1) b c))
  | inr wide ↦ elim (Bool-cases (ltb x 8192)) [
    | inl alphabetic ↦ rw (wide, alphabetic) (omega (arith, count_classes-eq s a (b + 1) c))
    | inr other ↦ rw (wide, other) (omega (arith, count_classes-eq s a b (c + 1)))
  ]
]

ascii-eq :
    (s : Text)
    → is_ascii s ≡ true
    → (sum_of ascii_one s ≡ length s) × (sum_of alphabetic_one s ≡ 0) × (sum_of other_one s ≡ 0)
ascii-eq [] h = (refl, refl, refl)
ascii-eq (x ∷ s) h = ground (arith, ascii-eq s)

-- The estimate of a text, through its short cut for ASCII or through the loop over the
-- characters, is a third of its ASCII characters rounded up, plus one for each other character
-- below U+2000, plus three for each character from there on.
pub estimate_text_tokens-eq-class_cost : (s : Text) → estimate_text_tokens s ≡ class_cost s
unfolding estimate_text_tokens class_cost
estimate_text_tokens-eq-class_cost s = elim (Bool-cases (is_ascii s)) [
  | inl ascii ↦ let (a, b, c) = ascii-eq s ascii in rw (ascii, a, b, c) (omega arith)
  | inr wide ↦ rw wide (omega (arith, count_classes-eq s 0 0 0))
]

class_cost-append : (s t : Text) → class_cost (s ++ t) ≤ class_cost s + class_cost t
unfolding class_cost
class_cost-append s t = omega (
  arith,
  sum_of-append ascii_one s t,
  sum_of-append alphabetic_one s t,
  sum_of-append other_one s t,
)

class_cost-le-append : (s t : Text) → class_cost s ≤ class_cost (s ++ t)
unfolding class_cost
class_cost-le-append s t = omega (
  arith,
  sum_of-append ascii_one s t,
  sum_of-append alphabetic_one s t,
  sum_of-append other_one s t,
)

-- Text that is added to a text never lowers its estimate, and raises it by no more than the
-- estimate of what was added.
pub estimate_text_tokens-append :
    (s t : Text)
    → (estimate_text_tokens s ≤ estimate_text_tokens (s ++ t))
      × (estimate_text_tokens (s ++ t) ≤ estimate_text_tokens s + estimate_text_tokens t)
estimate_text_tokens-append s t = omega (
  arith,
  estimate_text_tokens-eq-class_cost s,
  estimate_text_tokens-eq-class_cost t,
  estimate_text_tokens-eq-class_cost (s ++ t),
  class_cost-append s t,
  class_cost-le-append s t,
)

-- The reserved margin covers a twentieth of the context.
pub output_margin-le : (n : ℕ) → (n ≤ 20 * output_margin n) × (128 ≤ output_margin n)
unfolding output_margin
output_margin-le n = ground arith
