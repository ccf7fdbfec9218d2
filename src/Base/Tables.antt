-- ===== src/Base/Tables.antt =====
-- Tables as lists of keys and values: what `put` and `without` leave in them.
use Prim.Native.Nat.{suc, ◌≤◌}
use Prim.Native.String.{String}
use mathlib.Core.Path.{◌≡◌, refl, sym, ap, ◌∙◌}
use mathlib.Core.Logic.{inl, inr}
use mathlib.Core.Option.{some}
use mathlib.Core.List.{List, [], ◌∷◌}
use native.Mathlib.Omega.{arith}
use text.Mathlib.TextEquality.{eq_iff}
use local_agent_runtime.Base.Tests.{Bool-cases, if◌then◌else◌}
use local_agent_runtime.Base.Lists.{length}
use local_agent_runtime.Base.Strings.{str_eq, lookup, put, without}

module _ {V : Type 0} where
  pub lookup-put :
      (k : String) (v : V) (j : String) (m : List (String × V))
      → lookup j (put k v m) ≡ (if str_eq k j then some v else lookup j m)
  lookup-put k v j [] = refl
  lookup-put k v j ((i, w) ∷ m) = elim (Bool-cases (str_eq i k)) [
    | inl same ↦
        let p : str_eq i j ≡ str_eq k j = ap (λ x. str_eq x j) ((eq_iff i k).0 same) in
        elim (Bool-cases (str_eq k j)) [
          | inl hit ↦ rw (same, p, hit)
          | inr miss ↦ rw (same, p, miss)
        ]
    | inr other ↦ elim (Bool-cases (str_eq i j)) [
      | inl hit ↦ elim (Bool-cases (str_eq k j)) [
        | inl both ↦
            let r : i ≡ k = (eq_iff i j).0 hit ∙ sym ((eq_iff k j).0 both) in
            cc ((eq_iff i k).1 r, other)
        | inr miss ↦ rw (other, hit, miss)
      ]
      | inr miss ↦ rw (other, miss) (lookup-put k v j m)
    ]
  ]

  pub length-put :
      (k : String) (v : V) (m : List (String × V)) → length (put k v m) ≤ suc (length m)
  length-put k v [] = omega arith
  length-put k v ((j, w) ∷ m) = elim (Bool-cases (str_eq j k)) [
    | inl same ↦ rw same (omega arith)
    | inr other ↦ rw other (omega (arith, length-put k v m))
  ]

  -- What is there already is replaced.
  pub length-put_found :
      (k : String) (v w : V) (m : List (String × V))
      → lookup k m ≡ some w
      → length (put k v m) ≡ length m
  length-put_found k v w [] h = cc
  length-put_found k v w ((j, u) ∷ m) h = elim (Bool-cases (str_eq j k)) [
    | inl same ↦ rw same refl
    | inr other ↦ rw other (ap suc (length-put_found k v w m (rw other at h)))
  ]

  pub lookup-put_same : (k : String) (v : V) (m : List (String × V)) → lookup k (put k v m) ≡ some v
  lookup-put_same k v m = lookup-put k v k m ∙ rw ((eq_iff k k).1 refl) refl

  pub length-without : (k : String) (m : List (String × V)) → length (without k m) ≤ length m
  length-without k [] = omega arith
  length-without k ((j, w) ∷ m) = elim (Bool-cases (str_eq j k)) [
    | inl same ↦ rw same (omega (arith, length-without k m))
    | inr other ↦ rw other (omega (arith, length-without k m))
  ]
