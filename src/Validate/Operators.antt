-- ===== src/Validate/Operators.antt =====
-- The structural operators of an encoded query: the loop finds one exactly if a clause of the query
-- begins with one, so that joining two queries brings in none.
use snow_mcp.Common.{
  ℕ, ◌≡◌, refl, ap, ap₂, ◌∙◌, false, ◌||◌, ◌&&◌, [], ◌∷◌, ◌++◌, any, arith, ==_iff, ◌==◌,
  Bool-cases, inl, inr, ◌⊎◌,
}
use snow_mcp.Text.{Text, text, has_prefix, split_on, split_pieces, to_upper}
use snow_mcp.Validate.{
  is_operator, is_structural_token, operator_after_caret, has_structural_operator,
}

-- No code unit of the text is a caret.
abbrev NoCaret : Text → Type 0
NoCaret [] = Unit
NoCaret (c ∷ s) = ((c == b'^') ≡ false) × NoCaret s

has_prefix-caret : (p s u : Text) → NoCaret p → has_prefix p (s ++ b'^' ∷ u) ≡ has_prefix p s
unfolding has_prefix
has_prefix-caret [] s u h = refl
has_prefix-caret (a ∷ p) [] u h = ground arith
has_prefix-caret (a ∷ p) (b ∷ s) u h = ap (λ r. (a == b) && r) (has_prefix-caret p s u h.1)

is_operator-caret : (s u : Text) → is_operator (s ++ b'^' ∷ u) ≡ is_operator s
unfolding is_operator
is_operator-caret [] [] = refl
is_operator-caret [] (b ∷ u) = refl
is_operator-caret (a ∷ []) u = ground arith
is_operator-caret (a ∷ b ∷ s) u = refl

is_structural_token-caret :
    (s u : Text) → is_structural_token (s ++ b'^' ∷ u) ≡ is_structural_token s
unfolding is_structural_token
is_structural_token-caret s u = rw (
  has_prefix-caret (text "ORDERBYDESC") s u (ground arith),
  has_prefix-caret (text "ORDERBY") s u (ground arith),
  is_operator-caret s u,
)

operator_after_caret-caret :
    (s u : Text)
    → operator_after_caret (s ++ b'^' ∷ u)
      ≡ (operator_after_caret s || (is_structural_token u || operator_after_caret u))
unfolding operator_after_caret
operator_after_caret-caret [] u = refl
operator_after_caret-caret (c ∷ s) u =
    rw (is_structural_token-caret s u, operator_after_caret-caret s u) (ground arith)

is_structural_token-not_operator :
    (u : Text) → has_structural_operator u ≡ false → is_structural_token u ≡ false
unfolding has_structural_operator is_structural_token has_prefix is_operator to_upper
is_structural_token-not_operator [] h = refl
is_structural_token-not_operator (c ∷ u) h = elim (Bool-cases (c == b'^')) [
  | inl e ↦ by_caret c u ((==_iff c b'^').0 e)
  | inr e ↦ ground (arith, e, h)
]
  where
    by_caret : (c : ℕ) (u : Text) → c ≡ b'^' → is_structural_token (c ∷ u) ≡ false
    by_caret c [] e = ground (arith, e)
    by_caret c (b ∷ u) e = rw e refl

operator_after_caret-not_operator :
    (u : Text) → has_structural_operator u ≡ false → operator_after_caret u ≡ false
unfolding has_structural_operator
operator_after_caret-not_operator [] h = refl
operator_after_caret-not_operator (c ∷ u) h = ground (arith, h)

has_structural_operator-caret :
    (m u : Text)
    → has_structural_operator (m ++ b'^' ∷ u)
      ≡ (has_structural_operator m || (is_structural_token u || operator_after_caret u))
unfolding has_structural_operator
has_structural_operator-caret [] u = operator_after_caret-caret [] u
has_structural_operator-caret (c ∷ s) u =
    let token = is_structural_token-caret (c ∷ s) u in
    let after = operator_after_caret-caret (c ∷ s) u in ground (arith, token, after)

-- A query joined to a filter by a caret has no structural operator, if neither has one.
pub has_structural_operator-join :
    (m u : Text)
    → has_structural_operator m ≡ false
    → has_structural_operator u ≡ false
    → has_structural_operator (m ++ b'^' ∷ u) ≡ false
has_structural_operator-join m u h k =
    let token = is_structural_token-not_operator u k in
    let after = operator_after_caret-not_operator u k in
    rw (has_structural_operator-caret m u, h, token, after) refl

-- A text is its first piece, or goes on with a caret after that.
split_pieces-first :
    (s : Text)
    → (s ≡ (split_pieces b'^' s).0) ⊎ ((u : Text) × (s ≡ (split_pieces b'^' s).0 ++ b'^' ∷ u))
unfolding split_pieces
split_pieces-first [] = inl refl
split_pieces-first (c ∷ s) = elim (Bool-cases (c == b'^')) [
  | inl e ↦ rw e (inr (s, ap (λ d. d ∷ s) ((==_iff c b'^').0 e)))
  | inr e ↦ rw e (elim (split_pieces-first s) [
    | inl h ↦ inl (ap (λ r. c ∷ r) h)
    | inr (u, h) ↦ inr (u, ap (λ r. c ∷ r) h)
  ])
]

is_structural_token-first :
    (s : Text) → is_structural_token s ≡ is_structural_token (split_pieces b'^' s).0
is_structural_token-first s = elim (split_pieces-first s) [
  | inl h ↦ ap is_structural_token h
  | inr (u, h) ↦ ap is_structural_token h ∙ is_structural_token-caret (split_pieces b'^' s).0 u
]

operator_after_caret-pieces :
    (s : Text) → operator_after_caret s ≡ any is_structural_token (split_pieces b'^' s).1
unfolding operator_after_caret split_pieces
operator_after_caret-pieces [] = refl
operator_after_caret-pieces (c ∷ s) =
    let first = is_structural_token-first s in
    let rest = operator_after_caret-pieces s in
    elim (Bool-cases (c == b'^')) [ inl e ↦ rw e (rw (first, rest) refl) | inr e ↦ rw e rest ]

-- The loop finds a structural operator in a query exactly if one of the clauses that its carets
-- separate begins with one.
pub has_structural_operator-any :
    (q : Text) → has_structural_operator q ≡ any is_structural_token (split_on b'^' q)
unfolding has_structural_operator split_on split_pieces is_structural_token has_prefix is_operator
has_structural_operator-any [] = refl
has_structural_operator-any (c ∷ s) =
    let whole = is_structural_token-first (c ∷ s) in
    let first = is_structural_token-first s in
    let rest = operator_after_caret-pieces s in
    elim (Bool-cases (c == b'^')) [
      | inl e ↦ rw e (ap₂ ◌||◌ first rest)
      | inr e ↦ rw e (ap₂ ◌||◌ (rw e at whole) rest)
    ]
