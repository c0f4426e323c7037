-- ===== src/Policy/Operators.antt =====
-- The operators that may stand in front of the field of a clause, and how one is stripped:
-- `QUERY_OP_PREFIX` of packages/mcp-server/src/authz/actor-policy.ts.
use snow_mcp.Common.{ℕ, ◌≡◌, ◌≢◌, refl, ap, ◌∙◌, sym, true, false, [], ◌∷◌, ◌++◌, arith, length}
use snow_mcp.Text.{
  Text, text, drop_leading, drop, map_units, to_upper, is_letter, is_space, trim_start, has_prefix,
}
use snow_mcp.Policy.{starts_with_ci, strip_operator, begins_with_letter}

pub data Operator : Type 0 where
  no_operator new_query or_else equal_end group_by order_by order_by_desc : Operator

abbrev pub operator_text : Operator → Text
operator_text no_operator = []
operator_text new_query = text "NQ"
operator_text or_else = text "OR"
operator_text equal_end = text "EQ"
operator_text group_by = text "GROUPBY"
operator_text order_by = text "ORDERBY"
operator_text order_by_desc = text "ORDERBYDESC"

-- With what follows it the operator does not begin a longer one.
abbrev pub Longest : Operator → Text → Type 0
Longest or_else s = starts_with_ci (text "DERBY") s ≡ false
Longest order_by s = starts_with_ci (text "DESC") s ≡ false
Longest op s = Unit

-- A word that is an operator in any case.
abbrev pub Spells : Text → Operator → Type 0
Spells word op = map_units to_upper word ≡ operator_text op

map_units-append : (f : ℕ → ℕ) (s t : Text) → map_units f (s ++ t) ≡ map_units f s ++ map_units f t
unfolding map_units
map_units-append f [] t = refl
map_units-append f (c ∷ s) t = ap (λ r. f c ∷ r) (map_units-append f s t)

length-map_units : (f : ℕ → ℕ) (s : Text) → length (map_units f s) ≡ length s
unfolding map_units
length-map_units f [] = refl
length-map_units f (c ∷ s) = omega (arith, length-map_units f s)

pub drop-append : (s t : Text) → drop (length s) (s ++ t) ≡ t
unfolding drop
drop-append [] [] = refl
drop-append [] (c ∷ t) = refl
drop-append (c ∷ s) t = drop-append s t

has_prefix-longer : (p q s : Text) → has_prefix p s ≡ false → has_prefix (p ++ q) s ≡ false
unfolding has_prefix
has_prefix-longer [] q s h = absurd (cc h)
has_prefix-longer (a ∷ p) q [] h = refl
has_prefix-longer (a ∷ p) q (b ∷ s) h =
    let rest = has_prefix-longer p q s in ground (arith, h, rest)

letter-is_space : (c : ℕ) → is_letter (to_upper c) ≡ true → is_space c ≡ false
unfolding to_upper is_space
letter-is_space c h = ground arith

operator_begins : (op : Operator) → op ≢ no_operator → begins_with_letter (operator_text op) ≡ true
operator_begins no_operator h = absurd (h refl)
operator_begins op h = refl

pub trim_start-operator :
    (op : Operator) (word s : Text)
    → op ≢ no_operator
    → Spells word op
    → trim_start (word ++ s) ≡ word ++ s
unfolding trim_start drop_leading map_units
trim_start-operator op [] s h spelled =
    absurd (cc (ap begins_with_letter spelled, operator_begins op h))
trim_start-operator op (c ∷ word) s h spelled =
    let begins : is_letter (to_upper c) ≡ true =
      ap begins_with_letter spelled ∙ operator_begins op h in
    rw (letter-is_space c begins) refl

upper_word :
    (op : Operator) (word s : Text)
    → Spells word op
    → map_units to_upper (word ++ s) ≡ operator_text op ++ map_units to_upper s
upper_word op word s spelled =
    map_units-append to_upper word s ∙ ap (λ w. w ++ map_units to_upper s) spelled

drop-word :
    (op : Operator) (word s : Text)
    → Spells word op
    → drop (length (operator_text op)) (word ++ s) ≡ s
drop-word op word s spelled =
    ap (λ n. drop n (word ++ s)) (sym (ap length spelled) ∙ length-map_units to_upper word)
    ∙ drop-append word s

-- An operator that is not the beginning of a longer one is stripped.
pub strip_operator-word :
    (op : Operator) (word s : Text)
    → op ≢ no_operator
    → Spells word op
    → Longest op s
    → strip_operator (word ++ s) ≡ s
unfolding strip_operator starts_with_ci has_prefix
strip_operator-word no_operator word s h spelled longest = absurd (h refl)
strip_operator-word new_query word s h spelled longest =
    rw (upper_word new_query word s spelled) (drop-word new_query word s spelled)
strip_operator-word or_else word s h spelled longest =
    let longer = has_prefix-longer (text "DERBY") (text "DESC") (map_units to_upper s) longest in
    rw (upper_word or_else word s spelled, longer, longest) (drop-word or_else word s spelled)
strip_operator-word equal_end word s h spelled longest =
    rw (upper_word equal_end word s spelled) (drop-word equal_end word s spelled)
strip_operator-word group_by word s h spelled longest =
    rw (upper_word group_by word s spelled) (drop-word group_by word s spelled)
strip_operator-word order_by word s h spelled longest =
    rw (upper_word order_by word s spelled, longest) (drop-word order_by word s spelled)
strip_operator-word order_by_desc word s h spelled longest =
    rw (upper_word order_by_desc word s spelled) (drop-word order_by_desc word s spelled)
