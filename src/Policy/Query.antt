-- ===== src/Policy/Query.antt =====
-- `assertQueryFieldsAllowed` of packages/mcp-server/src/authz/actor-policy.ts, on the clauses of a query
-- that refer to a masked field, alone, behind an operator, or with the letters of a comparison glued to
-- it. (An `OR` or `ORDERBY` that makes a longer operator with the field is read as that one.)
use snow_mcp.Common.{
  ℕ, ◌≡◌, ◌≢◌, refl, ap, ◌∙◌, Bool, true, ◌||◌, List, [], ◌∷◌, ◌++◌, any, arith, Bool-cases, inl,
  inr, ◌⊎◌,
}
use snow_mcp.Text.{Text, text_eq, includes, map_units, is_space, trim_start, split_on, all_units}
use snow_mcp.Text.Laws.{text_eq-eq}
use snow_mcp.Policy.{
  ActorPolicy, masked_fields, field_token, strip_operator, is_forbidden, clause_forbidden,
  assert_query_fields_allowed, denied, is_field_unit,
}
use snow_mcp.Policy.Operators.{
  Operator, no_operator, Spells, Longest, trim_start-operator, strip_operator-word,
}
use snow_mcp.Policy.Fields.{
  drop_leading-append, trim_start-field, field_token-name, Refers, is_forbidden-name,
}

-- A clause: white space, the word of an operator, a field, and what follows the field.
abbrev pub clause_text : Text → Text → Text → Text → Text
clause_text spaces word name tail = spaces ++ (word ++ (name ++ tail))

opened :
    (ms : List Text) (clause : Text)
    → clause_forbidden ms clause ≡ (
        is_forbidden ms (field_token (trim_start clause))
        || is_forbidden ms (field_token (strip_operator (trim_start clause))))
unfolding clause_forbidden
opened ms clause = refl

trim_start-spaces :
    (spaces s : Text) → all_units is_space spaces ≡ true → trim_start (spaces ++ s) ≡ trim_start s
unfolding trim_start
trim_start-spaces spaces s h = drop_leading-append spaces s h

clause_forbidden-or :
    (ms : List Text) (clause s : Text)
    → trim_start clause ≡ s
    → (is_forbidden ms (field_token s) ≡ true)
      ⊎ (is_forbidden ms (field_token (strip_operator s)) ≡ true)
    → clause_forbidden ms clause ≡ true
clause_forbidden-or ms clause s trimmed h = clause_forbidden_eq ∙ by_part h
  where
    clause_forbidden_eq :
        clause_forbidden ms clause
        ≡ (is_forbidden ms (field_token s) || is_forbidden ms (field_token (strip_operator s)))
    clause_forbidden_eq = rw (← trimmed) (opened ms clause)

    by_part :
        (is_forbidden ms (field_token s) ≡ true)
          ⊎ (is_forbidden ms (field_token (strip_operator s)) ≡ true)
        → (is_forbidden ms (field_token s) || is_forbidden ms (field_token (strip_operator s)))
          ≡ true
    by_part (inl e) = rw e refl
    by_part (inr e) = ground (arith, e)

module _ (p : ActorPolicy) (t spaces : Text) (c : ℕ) (name tail : Text)
    (blank : all_units is_space spaces ≡ true) (units : all_units is_field_unit (c ∷ name) ≡ true)
    (refers : Refers p t (c ∷ name) tail) where
  forbidden_field : is_forbidden (masked_fields p t) (field_token (c ∷ name ++ tail)) ≡ true
  forbidden_field =
      rw (field_token-name c name tail units) (is_forbidden-name p t c name tail refers)

  trimmed_field : trim_start (spaces ++ (c ∷ name ++ tail)) ≡ c ∷ name ++ tail
  unfolding all_units
  trimmed_field =
      trim_start-spaces spaces (c ∷ name ++ tail) blank
      ∙ trim_start-field c (name ++ tail) (ground (arith, units))

  forbidden_behind :
      (op : Operator) (word : Text)
      → op ≢ no_operator
      → Spells word op
      → Longest op (c ∷ name ++ tail)
      → clause_forbidden (masked_fields p t) (clause_text spaces word (c ∷ name) tail) ≡ true
  forbidden_behind op word h spelled longest =
      clause_forbidden-or (masked_fields p t) (clause_text spaces word (c ∷ name) tail)
        (word ++ (c ∷ name ++ tail))
        (trim_start-spaces spaces (word ++ (c ∷ name ++ tail)) blank
          ∙ trim_start-operator op word (c ∷ name ++ tail) h spelled)
        (inr
          (rw (strip_operator-word op word (c ∷ name ++ tail) h spelled longest) forbidden_field))

  clause_forbidden-field :
      (op : Operator) (word : Text)
      → Spells word op
      → Longest op (c ∷ name ++ tail)
      → clause_forbidden (masked_fields p t) (clause_text spaces word (c ∷ name) tail) ≡ true
  unfolding map_units
  clause_forbidden-field no_operator [] spelled longest =
      clause_forbidden-or (masked_fields p t) (spaces ++ (c ∷ name ++ tail)) (c ∷ name ++ tail)
        trimmed_field (inl forbidden_field)
  clause_forbidden-field no_operator (d ∷ word) spelled longest = absurd (cc spelled)
  clause_forbidden-field op word spelled longest =
      forbidden_behind op word (λ e. cc e) spelled longest

any-includes_self :
    (f : Text → Bool) (xs : List Text) (x : Text)
    → includes xs x ≡ true
    → f x ≡ true
    → any f xs ≡ true
unfolding includes
any-includes_self f [] x h k = cc
any-includes_self f (y ∷ xs) x h k = elim (Bool-cases (text_eq y x)) [
  | inl e ↦ let same = ap f (text_eq-eq y x e) in ground (arith, same, k)
  | inr e ↦ let rest = any-includes_self f xs x in ground (arith, e, h, k, rest)
]

refused-any :
    (p : ActorPolicy) (t q : Text)
    → any (clause_forbidden (masked_fields p t)) (split_on b'^' q) ≡ true
    → assert_query_fields_allowed p t q ≡ denied
unfolding assert_query_fields_allowed
refused-any p t q h = rw h refl

-- A query is refused if one of its clauses, after white space and one of the operators NQ, OR, EQ,
-- GROUPBY, ORDERBY and ORDERBYDESC in any case, if any, either names a field that in lower case is
-- covered by a mask, a dot-walked field included, and that ends there; or has a masked field with a
-- letter after it, as of a comparison. For OR and ORDERBY, what follows does not make a longer operator
-- of it (OR with DERBY…, ORDERBY with DESC…); for a glued letter, no mask is empty.
pub query-refused :
    (p : ActorPolicy) (t q spaces word name tail : Text) (op : Operator) (c : ℕ)
    → includes (split_on b'^' q) (clause_text spaces word (c ∷ name) tail) ≡ true
    → all_units is_space spaces ≡ true
    → Spells word op
    → Longest op (c ∷ name ++ tail)
    → all_units is_field_unit (c ∷ name) ≡ true
    → Refers p t (c ∷ name) tail
    → assert_query_fields_allowed p t q ≡ denied
query-refused p t q spaces word name tail op c member blank spelled longest units refers =
    let forbidden =
      clause_forbidden-field p t spaces c name tail blank units refers op word spelled longest in
    refused-any p t q (
      any-includes_self (clause_forbidden (masked_fields p t)) (split_on b'^' q)
        (clause_text spaces word (c ∷ name) tail) member forbidden)
