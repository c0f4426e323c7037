-- ===== src/Policy/Fields.antt =====
-- The field at the start of a clause, for `leadingFieldToken` and `maskedFieldWithGluedOperator` of
-- packages/mcp-server/src/authz/actor-policy.ts, and the test that a mask covers it.
use snow_mcp.Common.{
  ℕ, ◌≡◌, refl, ap, subst, sym, ◌∙◌, Bool, true, false, ◌&&◌, ◌||◌, List, [], ◌∷◌, ◌++◌, arith,
  Bool-cases, inl, inr, ◌⊎◌, length,
}
use snow_mcp.Text.{
  Text, text_eq, includes, leading, drop_leading, drop, map_units, to_lower, is_letter, is_space,
  trim_start, has_prefix, all_units,
}
use snow_mcp.Text.Laws.{text_eq-eq}
use snow_mcp.Policy.{
  ActorPolicy, masked_fields, field_token, is_forbidden, is_truthy, begins_with_letter, glued_field,
  is_field_unit,
}
use snow_mcp.Policy.Masks.{is_covered, is_field_masked-covers}
use snow_mcp.Policy.Filters.{has_prefix-append}
use snow_mcp.Policy.Operators.{drop-append}

-- The text does not go on with a code unit of a field.
abbrev pub EndsField : Text → Type 0
EndsField [] = Unit
EndsField (c ∷ s) = is_field_unit c ≡ false

is_space-field_unit : (c : ℕ) → is_field_unit c ≡ true → is_space c ≡ false
unfolding is_space
is_space-field_unit c h = ground arith

leading-append :
    (name tail : Text)
    → all_units is_field_unit name ≡ true
    → leading is_field_unit (name ++ tail) ≡ name ++ leading is_field_unit tail
unfolding leading all_units
leading-append [] tail h = refl
leading-append (a ∷ name) tail h =
    let rest = leading-append name tail in
    let first : is_field_unit a ≡ true = ground (arith, h) in
    let others : all_units is_field_unit name ≡ true = ground (arith, h) in
    rw first (ap (λ s. a ∷ s) (rest others))

map_units-append_lower :
    (s t : Text) → map_units to_lower (s ++ t) ≡ map_units to_lower s ++ map_units to_lower t
unfolding map_units
map_units-append_lower [] t = refl
map_units-append_lower (c ∷ s) t = ap (λ r. to_lower c ∷ r) (map_units-append_lower s t)

append_nil : (s : Text) → s ++ [] ≡ s
append_nil [] = refl
append_nil (c ∷ s) = ap (λ r. c ∷ r) (append_nil s)

pub drop_leading-append :
    (spaces s : Text)
    → all_units is_space spaces ≡ true
    → drop_leading is_space (spaces ++ s) ≡ drop_leading is_space s
unfolding drop_leading all_units
drop_leading-append [] s h = refl
drop_leading-append (c ∷ spaces) s h =
    let first : is_space c ≡ true = ground (arith, h) in
    let others : all_units is_space spaces ≡ true = ground (arith, h) in
    rw first (drop_leading-append spaces s others)

-- A field is not trimmed.
pub trim_start-field : (c : ℕ) (s : Text) → is_field_unit c ≡ true → trim_start (c ∷ s) ≡ c ∷ s
unfolding trim_start drop_leading
trim_start-field c s h = rw (is_space-field_unit c h) refl

-- What the field token has after the name.
abbrev suffix : Text → Text
suffix tail = map_units to_lower (leading is_field_unit tail)

pub field_token-name :
    (c : ℕ) (name tail : Text)
    → all_units is_field_unit (c ∷ name) ≡ true
    → field_token (c ∷ name ++ tail) ≡ map_units to_lower (c ∷ name) ++ suffix tail
unfolding field_token all_units
field_token-name c name tail h =
    let first : is_field_unit c ≡ true = ground (arith, h) in
    rw (trim_start-field c (name ++ tail) first) (
      ap (map_units to_lower) (leading-append (c ∷ name) tail h)
      ∙ map_units-append_lower (c ∷ name) (leading is_field_unit tail))

suffix-EndsField : (tail : Text) → EndsField tail → suffix tail ≡ []
unfolding leading map_units
suffix-EndsField [] e = refl
suffix-EndsField (c ∷ tail) e = rw e refl

lower_letter : (c : ℕ) → is_letter c ≡ true → is_letter (to_lower c) ≡ true
unfolding to_lower
lower_letter c h = ground arith

suffix-letter :
    (tail : Text) → begins_with_letter tail ≡ true → begins_with_letter (suffix tail) ≡ true
unfolding leading map_units
suffix-letter [] h = h
suffix-letter (c ∷ tail) h =
    let unit : is_field_unit c ≡ true = rw h refl in rw unit (lower_letter c h)

-- The test of the loop over the masks.
abbrev glues : Text → Text → Bool
glues m token = has_prefix m token && begins_with_letter (drop (length m) token)

glues_self : (m more : Text) → begins_with_letter more ≡ true → glues m (m ++ more) ≡ true
glues_self m more k = rw (has_prefix-append m more, drop-append m more) k

-- A mask with letters glued to it is found, if no mask is empty.
glued_field-mask :
    (ms : List Text) (m more : Text)
    → includes ms m ≡ true
    → includes ms [] ≡ false
    → begins_with_letter more ≡ true
    → is_truthy (glued_field ms (m ++ more)) ≡ true
unfolding includes glued_field text_eq
glued_field-mask [] m more h e k = absurd (cc h)
glued_field-mask ([] ∷ ms) m more h e k = absurd (cc e)
glued_field-mask ((a ∷ f) ∷ ms) m more h e k = elim (Bool-cases (glues (a ∷ f) (m ++ more))) [
  | inl found ↦ rw found refl
  | inr other ↦ rw other (elim (Bool-cases (text_eq (a ∷ f) m)) [
    | inl same ↦ absurd (cc (mask_glues same, other))
    | inr differs ↦ glued_field-mask ms m more (ground (arith, h, differs)) (ground (arith, e)) k
  ])
]
  where
    mask_glues : text_eq (a ∷ f) m ≡ true → glues (a ∷ f) (m ++ more) ≡ true
    mask_glues same =
        subst (λ x. glues x (m ++ more) ≡ true) (sym (text_eq-eq (a ∷ f) m same))
          (glues_self m more k)

-- A field, by its name, and what comes after it: a field that a mask covers, and no more of it; or a
-- masked field with a letter glued to it, where no mask is empty.
abbrev pub Refers : ActorPolicy → Text → Text → Text → Type 0
Refers p t name tail =
    (EndsField tail × (is_covered p t (map_units to_lower name) ≡ true))
    ⊎ ((begins_with_letter tail ≡ true)
        × (includes (masked_fields p t) (map_units to_lower name) ≡ true)
        × (includes (masked_fields p t) [] ≡ false))

is_forbidden-covered :
    (p : ActorPolicy) (t : Text) (c : ℕ) (name : Text)
    → is_covered p t (map_units to_lower (c ∷ name)) ≡ true
    → is_forbidden (masked_fields p t) (map_units to_lower (c ∷ name)) ≡ true
unfolding is_forbidden map_units
is_forbidden-covered p t c name h =
    let masked =
      is_field_masked-covers (masked_fields p t) (to_lower c ∷ map_units to_lower name) in
    rw (masked, h) refl

or_true : (b : Bool) → (b || true) ≡ true
or_true true = refl
or_true false = refl

is_forbidden-glued :
    (ms : List Text) (c : ℕ) (name more : Text)
    → is_truthy (glued_field ms (map_units to_lower (c ∷ name) ++ more)) ≡ true
    → is_forbidden ms (map_units to_lower (c ∷ name) ++ more) ≡ true
unfolding is_forbidden map_units
is_forbidden-glued ms c name more h = rw h (or_true _)

pub is_forbidden-name :
    (p : ActorPolicy) (t : Text) (c : ℕ) (name tail : Text)
    → Refers p t (c ∷ name) tail
    → is_forbidden (masked_fields p t) (map_units to_lower (c ∷ name) ++ suffix tail) ≡ true
is_forbidden-name p t c name tail (inl (ends, covered)) =
    let lower = map_units to_lower (c ∷ name) in
    let whole : lower ++ suffix tail ≡ lower =
      ap (λ s. lower ++ s) (suffix-EndsField tail ends) ∙ append_nil lower in
    ap (is_forbidden (masked_fields p t)) whole ∙ is_forbidden-covered p t c name covered
is_forbidden-name p t c name tail (inr (letter, masked, no_empty)) =
    is_forbidden-glued (masked_fields p t) c name (suffix tail) (
      glued_field-mask (masked_fields p t) (map_units to_lower (c ∷ name)) (suffix tail) masked
        no_empty (suffix-letter tail letter))
