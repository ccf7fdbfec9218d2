-- ===== src/Adapters/LmStudio/Grammar.antt =====
-- What the copy of a tool's schema for LM Studio's grammar is, by the places in a schema where
-- JSON Schema has a schema.
use mathlib.Core.Path.{ap₂}
use local_agent_runtime.Base.{
  String, ◌≡◌, refl, ap, Bool, true, false, not, ◌&&◌, List, [], ◌∷◌, Bool-cases, inl, inr,
  if◌then◌else◌, member, str_eq, arith,
}
use local_agent_runtime.Json.{
  Json, null, bool, num, nonfinite, str, arr, obj, Items, nil, cons, Fields, end, field,
}
use local_agent_runtime.Adapters.LmStudio.{
  is_unsupported, map_keywords, single_keywords, sequence_keywords, compatible, compatible_value,
  compatible_map, compatible_items, compatible_item,
}

-- The keywords whose object holds a schema under each of its names, whose object is a schema, and
-- whose list is of schemas.
abbrev named_schemas : List String
named_schemas =
    "$defs" ∷ "definitions" ∷ "dependencies" ∷ "dependentSchemas" ∷ "patternProperties"
    ∷ "properties" ∷ []

abbrev one_schema : List String
one_schema =
    "additionalItems" ∷ "additionalProperties" ∷ "contains" ∷ "contentSchema" ∷ "else" ∷ "if"
    ∷ "items" ∷ "not" ∷ "propertyNames" ∷ "then" ∷ "unevaluatedItems" ∷ "unevaluatedProperties" ∷ []

abbrev listed_schemas : List String
listed_schemas =
    "allOf" ∷ "anyOf" ∷ "oneOf" ∷ "prefixItems" ∷ "additionalItems" ∷ "additionalProperties"
    ∷ "contains" ∷ "contentSchema" ∷ "else" ∷ "if" ∷ "items" ∷ "not" ∷ "propertyNames" ∷ "then"
    ∷ "unevaluatedItems" ∷ "unevaluatedProperties" ∷ []

-- No schema that stands in this one, at any depth, has a key `minLength` or `maxLength`.
unfoldable mutual
  pub lacks_lengths : Fields → Bool
  lacks_lengths end = true
  lacks_lengths (field key value fs) =
      not (str_eq key "minLength")
      && not (str_eq key "maxLength")
      && lacks_lengths_at key value
      && lacks_lengths fs

  lacks_lengths_at : (key : String) → Json → Bool
  lacks_lengths_at key (obj fs) =
      if member key named_schemas
      then map_lacks_lengths fs
      else if member key one_schema
      then lacks_lengths fs
      else true
  lacks_lengths_at key (arr xs) = if member key listed_schemas then items_lack_lengths xs else true
  lacks_lengths_at key value = true

  map_lacks_lengths : Fields → Bool
  map_lacks_lengths end = true
  map_lacks_lengths (field name item fs) = item_lacks_lengths item && map_lacks_lengths fs

  items_lack_lengths : Items → Bool
  items_lack_lengths nil = true
  items_lack_lengths (cons item xs) = item_lacks_lengths item && items_lack_lengths xs

  item_lacks_lengths : Json → Bool
  item_lacks_lengths (obj fs) = lacks_lengths fs
  item_lacks_lengths item = true

-- A key that the copy keeps is none of the two.
kept_key :
    (key : String)
    → is_unsupported key ≡ false
    → (str_eq key "minLength" ≡ false) × (str_eq key "maxLength" ≡ false)
kept_key key kept = (ground arith, ground arith)

mutual
  unfolding compatible compatible_value compatible_map compatible_items compatible_item
      lacks_lengths lacks_lengths_at map_lacks_lengths items_lack_lengths item_lacks_lengths

  copy_lacks : (fs : Fields) → lacks_lengths (compatible fs) ≡ true
  copy_lacks end = refl
  copy_lacks (field key value fs) = elim (Bool-cases (is_unsupported key)) [
    | inl dropped ↦ rw dropped (copy_lacks fs)
    | inr kept ↦
        let (no_min, no_max) = kept_key key kept in
        rw (kept, no_min, no_max, copy_lacks_at key value, copy_lacks fs) refl
  ]

  copy_lacks_at :
      (key : String) (value : Json) → lacks_lengths_at key (compatible_value key value) ≡ true
  copy_lacks_at key (obj fs) = elim (Bool-cases (member key map_keywords)) [
    | inl holds_map ↦ rw (holds_map, holds_map) (copy_map_lacks fs)
    | inr no_map ↦ elim (Bool-cases (member key single_keywords)) [
      | inl single ↦ rw (no_map, single, no_map, single) (copy_lacks fs)
      | inr plain ↦ rw (no_map, plain, no_map, plain) refl
    ]
  ]
  copy_lacks_at key (arr xs) = elim (Bool-cases (member key sequence_keywords)) [
    | inl several ↦ rw (several, several) (copy_items_lack xs)
    | inr plain ↦ rw (plain, plain) refl
  ]
  copy_lacks_at key null = refl
  copy_lacks_at key (bool b) = refl
  copy_lacks_at key (num n) = refl
  copy_lacks_at key (nonfinite n) = refl
  copy_lacks_at key (str s) = refl

  copy_map_lacks : (fs : Fields) → map_lacks_lengths (compatible_map fs) ≡ true
  copy_map_lacks end = refl
  copy_map_lacks (field name item fs) = rw (copy_item_lacks item, copy_map_lacks fs) refl

  copy_items_lack : (xs : Items) → items_lack_lengths (compatible_items xs) ≡ true
  copy_items_lack nil = refl
  copy_items_lack (cons item xs) = rw (copy_item_lacks item, copy_items_lack xs) refl

  copy_item_lacks : (item : Json) → item_lacks_lengths (compatible_item item) ≡ true
  copy_item_lacks (obj fs) = copy_lacks fs
  copy_item_lacks null = refl
  copy_item_lacks (bool b) = refl
  copy_item_lacks (num n) = refl
  copy_item_lacks (nonfinite n) = refl
  copy_item_lacks (str s) = refl
  copy_item_lacks (arr xs) = refl

-- The copy of a schema for LM Studio's grammar has no `minLength` and no `maxLength` wherever a
-- schema stands in it, at any depth: at its top, under a keyword that holds a schema, in a list of
-- schemas and under each name of a map of schemas.
pub compatible-lacks_lengths : (schema : Fields) → lacks_lengths (compatible schema) ≡ true
compatible-lacks_lengths schema = copy_lacks schema

-- The parts of a conjunction.
both : (a b : Bool) → (a && b) ≡ true → (a ≡ true) × (b ≡ true)
both true b h = (refl, h)
both false b h = cc

-- A key that is none of the two is kept.
supported_key :
    (key : String)
    → not (str_eq key "minLength") ≡ true
    → not (str_eq key "maxLength") ≡ true
    → is_unsupported key ≡ false
supported_key key no_min no_max = ground arith

mutual
  unfolding compatible compatible_value compatible_map compatible_items compatible_item
      lacks_lengths lacks_lengths_at map_lacks_lengths items_lack_lengths item_lacks_lengths

  same_copy : (fs : Fields) → lacks_lengths fs ≡ true → compatible fs ≡ fs
  same_copy end h = refl
  same_copy (field key value fs) h =
      let no_min = not (str_eq key "minLength") in
      let no_max = not (str_eq key "maxLength") in
      let (upper, later) =
        both (no_min && no_max && lacks_lengths_at key value) (lacks_lengths fs) h in
      let (named, inside) = both (no_min && no_max) (lacks_lengths_at key value) upper in
      let (min_absent, max_absent) = both no_min no_max named in
      rw (supported_key key min_absent max_absent)
        (ap₂ (λ v fs. field key v fs) (same_value key value inside) (same_copy fs later))

  same_value :
      (key : String) (value : Json)
      → lacks_lengths_at key value ≡ true
      → compatible_value key value ≡ value
  same_value key (obj fs) h = elim (Bool-cases (member key map_keywords)) [
    | inl holds_map ↦ rw holds_map (ap obj (same_map fs (rw holds_map at h)))
    | inr no_map ↦ elim (Bool-cases (member key single_keywords)) [
      | inl single ↦ rw (no_map, single) (ap obj (same_copy fs (rw (no_map, single) at h)))
      | inr plain ↦ rw (no_map, plain) refl
    ]
  ]
  same_value key (arr xs) h = elim (Bool-cases (member key sequence_keywords)) [
    | inl several ↦ rw several (ap arr (same_items xs (rw several at h)))
    | inr plain ↦ rw plain refl
  ]
  same_value key null h = refl
  same_value key (bool b) h = refl
  same_value key (num n) h = refl
  same_value key (nonfinite n) h = refl
  same_value key (str s) h = refl

  same_map : (fs : Fields) → map_lacks_lengths fs ≡ true → compatible_map fs ≡ fs
  same_map end h = refl
  same_map (field name item fs) h =
      let (one, later) = both (item_lacks_lengths item) (map_lacks_lengths fs) h in
      ap₂ (λ v fs. field name v fs) (same_item item one) (same_map fs later)

  same_items : (xs : Items) → items_lack_lengths xs ≡ true → compatible_items xs ≡ xs
  same_items nil h = refl
  same_items (cons item xs) h =
      let (one, later) = both (item_lacks_lengths item) (items_lack_lengths xs) h in
      ap₂ cons (same_item item one) (same_items xs later)

  same_item : (item : Json) → item_lacks_lengths item ≡ true → compatible_item item ≡ item
  same_item (obj fs) h = ap obj (same_copy fs h)
  same_item null h = refl
  same_item (bool b) h = refl
  same_item (num n) h = refl
  same_item (nonfinite n) h = refl
  same_item (str s) h = refl
  same_item (arr xs) h = refl

-- A schema that has no `minLength` and no `maxLength` wherever a schema stands in it is copied
-- for LM Studio's grammar as it is, its other keys and values in their order.
pub compatible-same : (schema : Fields) → lacks_lengths schema ≡ true → compatible schema ≡ schema
compatible-same schema h = same_copy schema h
