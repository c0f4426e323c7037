-- ===== src/Policy/Masks.antt =====
-- Field masks: the scan of the dots of a field against the plain meaning of a mask, and what a masked
-- row shows.
use snow_mcp.Common.{
  ℕ, ◌≡◌, refl, ap, ap₂, ◌∙◌, sym, Bool, true, false, ◌||◌, ◌&&◌, not, none, some, List, [], ◌∷◌,
  ◌++◌, map, any, arith, ◌==◌, Bool-cases, inl, inr, if◌then◌else◌, filter_by,
}
use snow_mcp.Errors.{ok}
use snow_mcp.Text.{Text, text_eq, includes, has_prefix}
use snow_mcp.Text.Laws.{text_eq-eq}
use snow_mcp.Policy.{
  ActorPolicy, find_entry, masked_fields, dot_prefixes, is_field_masked, mask_row, denied, deny_any,
  assert_requested_fields_allowed,
}

-- A mask covers its own field, and what is reached through that field by a dot.
abbrev pub covers : Text → Text → Bool
covers f m = text_eq m f || has_prefix (m ++ b'.' ∷ []) f

-- The field is covered by a mask of the actor on the table.
abbrev pub is_covered : ActorPolicy → Text → Text → Bool
is_covered p t f = any (covers f) (masked_fields p t)

any-or {ℓ} :
    {A : Type ℓ} (p q : A → Bool) (xs : List A) → (any p xs || any q xs) ≡ any (λ x. p x || q x) xs
any-or p q [] = refl
any-or p q (x ∷ xs) = ground (arith, any-or p q xs)

any-map_cons :
    (a c : ℕ) (m : Text) (ps : List Text)
    → any (text_eq (a ∷ m)) (map (λ p. c ∷ p) ps) ≡ ((a == c) && any (text_eq m) ps)
unfolding text_eq
any-map_cons a c m [] = ground arith
any-map_cons a c m (p ∷ ps) = ground (arith, any-map_cons a c m ps)

any-map_cons-nil : (c : ℕ) (ps : List Text) → any (text_eq []) (map (λ p. c ∷ p) ps) ≡ false
unfolding text_eq
any-map_cons-nil c [] = refl
any-map_cons-nil c (p ∷ ps) = any-map_cons-nil c ps

-- A field is one of the slices before the dots of another exactly if it is followed there by a dot.
dot_prefixes-has_prefix :
    (m f : Text) → any (text_eq m) (dot_prefixes f) ≡ has_prefix (m ++ b'.' ∷ []) f
unfolding dot_prefixes has_prefix text_eq
dot_prefixes-has_prefix [] [] = refl
dot_prefixes-has_prefix (a ∷ m) [] = refl
dot_prefixes-has_prefix [] (c ∷ s) =
    let later = any-map_cons-nil c (dot_prefixes s) in ground (arith, later)
dot_prefixes-has_prefix (a ∷ m) (c ∷ s) =
    let later = any-map_cons a c m (dot_prefixes s) in
    let rest = dot_prefixes-has_prefix m s in ground (arith, later, rest)

includes-any : (ms : List Text) (f : Text) → includes ms f ≡ any (λ m. text_eq m f) ms
unfolding includes
includes-any [] f = refl
includes-any (m ∷ ms) f = ap (λ r. text_eq m f || r) (includes-any ms f)

any-includes : (ms ps : List Text) → any (includes ms) ps ≡ any (λ m. any (text_eq m) ps) ms
unfolding includes
any-includes [] [] = refl
any-includes [] (p ∷ ps) = any-includes [] ps
any-includes (m ∷ ms) [] = any-includes ms []
any-includes (m ∷ ms) (p ∷ ps) =
    rw (any-includes (m ∷ ms) ps, includes-any ms p)
      (sym (rw (← any-or (λ x. text_eq x p) (λ x. any (text_eq x) ps) ms) (ground arith)))

any-eq {ℓ} :
    {A : Type ℓ} (p q : A → Bool) (xs : List A) → ((x : A) → p x ≡ q x) → any p xs ≡ any q xs
any-eq p q [] h = refl
any-eq p q (x ∷ xs) h = ap₂ ◌||◌ (h x) (any-eq p q xs h)

-- The scan finds a field masked exactly if a mask covers it.
pub is_field_masked-covers : (ms : List Text) (f : Text) → is_field_masked ms f ≡ any (covers f) ms
unfolding is_field_masked
is_field_masked-covers ms f =
    ap₂ ◌||◌ (includes-any ms f) (
      any-includes ms (dot_prefixes f)
      ∙ any-eq (λ m. any (text_eq m) (dot_prefixes f)) (λ m. has_prefix (m ++ b'.' ∷ []) f) ms
          (λ m. dot_prefixes-has_prefix m f))
    ∙ any-or (λ m. text_eq m f) (λ m. has_prefix (m ++ b'.' ∷ []) f) ms

find_entry-filter {ℓ} :
    {V : Type ℓ} (hidden : Text → Bool) (f : Text) (row : List (Text × V))
    → find_entry f (filter_by (λ e. not (hidden e.0)) row)
      ≡ (if hidden f then none else find_entry f row)
unfolding find_entry
find_entry-filter hidden f [] = ground arith
find_entry-filter hidden f ((k, v) ∷ row) =
    let rest = find_entry-filter hidden f row in
    elim (Bool-cases (text_eq k f)) [
      | inl same ↦ by_name k same rest
      | inr other ↦ ground (arith, other, rest)
    ]
  where
    by_name :
        (k : Text)
        → text_eq k f ≡ true
        → find_entry f (filter_by (λ e. not (hidden e.0)) row)
          ≡ (if hidden f then none else find_entry f row)
        → find_entry f (filter_by (λ e. not (hidden e.0)) ((k, v) ∷ row))
          ≡ (if hidden f then none else find_entry f ((k, v) ∷ row))
    by_name k same rest = let e = ap hidden (text_eq-eq k f same) in ground (arith, e, same, rest)

-- A masked row shows no column that a mask covers, dot-walked columns included, and every other
-- column with its value.
pub find_entry-mask_row :
    {V : Type 0} (p : ActorPolicy) (t f : Text) (row : List (Text × V))
    → find_entry f (mask_row p t row) ≡ (if is_covered p t f then none else find_entry f row)
unfolding mask_row
find_entry-mask_row p t f row =
    rw (← is_field_masked-covers (masked_fields p t) f)
      (find_entry-filter (is_field_masked (masked_fields p t)) f row)

any-filter :
    (hidden shown : Text → Bool) (fs : List Text)
    → ((f : Text) → hidden f ≡ shown f)
    → deny_any (filter_by hidden fs) ≡ (if any shown fs then denied else ok tt)
any-filter hidden shown [] h = refl
any-filter hidden shown (f ∷ fs) h =
    let rest = any-filter hidden shown fs h in ground (arith, h f, rest)

-- A request is refused exactly if it names a field that a mask covers, a dot-walked one included.
pub assert_requested_fields_allowed-covered :
    (p : ActorPolicy) (t : Text) (fs : List Text)
    → assert_requested_fields_allowed p t (some fs)
      ≡ (if any (is_covered p t) fs then denied else ok tt)
unfolding assert_requested_fields_allowed
assert_requested_fields_allowed-covered p t fs =
    any-filter (is_field_masked (masked_fields p t)) (is_covered p t) fs
      (is_field_masked-covers (masked_fields p t))
