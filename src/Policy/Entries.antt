-- ===== src/Policy/Entries.antt =====
-- What the parsers of the settings give: packages/mcp-server/src/authz/actor-policy.ts, lines 107 to 182.
use snow_mcp.Common.{
  ap, ◌≡◌, refl, Bool, true, false, Option, some, List, [], ◌∷◌, ◌++◌, All, arith, Bool-cases,
  chosen, inl, inr, if◌then◌else◌,
}
use snow_mcp.Errors.{Result, ok, throw, ◌>>=◌, ◌>>◌}
use snow_mcp.Text.{Text, text, text_eq}
use snow_mcp.Validate.{is_table_name, is_field_name}
use snow_mcp.Policy.Loader.{
  trim, parse_list, assert_all, invalid, parse_table_allowlist, split_at_colon, key_and_value,
  set_property, add_entry, add_entries, parse_table_scoped_config, trimmed_pieces, parse_fields,
  parse_filter, is_not_empty,
}

-- What was returned before the last step.
pub bind-ok :
    {A B : Type 0} (r : Result A) (f : A → Result B) (b : B)
    → (r >>= f) ≡ ok b
    → (a : A) × (r ≡ ok a) × (f a ≡ ok b)
bind-ok (ok a) f b h = (a, refl, h)
bind-ok (throw e) f b h = absurd (cc h)

pub then-ok :
    {B : Type 0} (r : Result (Unit {0})) (k : Result B) (b : B)
    → (r >> k) ≡ ok b
    → (r ≡ ok tt) × (k ≡ ok b)
then-ok (ok a) k b h = (refl, h)
then-ok (throw e) k b h = absurd (cc h)

pub value_of-ok : {A : Type 0} {a b : A} → ok a ≡ ok b → a ≡ b
value_of-ok {A} {a} h = ap (or_else a) h
  where
    or_else : A → Result A → A
    or_else d (ok x) = x
    or_else d (throw e) = d

pub passed : (b : Bool) → (if b then ok tt else invalid) ≡ ok tt → b ≡ true
passed true h = refl
passed false h = cc

assert_all-All :
    (p : Text → Bool) (ss : List Text) → assert_all p ss ≡ ok tt → All (λ s. p s ≡ true) ss
unfolding assert_all
assert_all-All p [] h = tt
assert_all-All p (s ∷ ss) h = (ground (arith, h), assert_all-All p ss (ground (arith, h)))

module _ {T : Type 0} (Good : T → Type 0) where
  -- The table's name is valid, and so is what it is given.
  abbrev pub GoodEntry : Text × T → Type 0
  GoodEntry e = (is_table_name e.0 ≡ true) × Good e.1

  All-append :
      (es : List (Text × T)) (e : Text × T)
      → All GoodEntry es
      → GoodEntry e
      → All GoodEntry (es ++ e ∷ [])
  All-append [] e h g = (g, tt)
  All-append (f ∷ es) e h g = (h.0, All-append es e h.1 g)

  set_property-All :
      (t : Text) (v : T) (out : List (Text × T))
      → All GoodEntry out
      → GoodEntry (t, v)
      → All GoodEntry (set_property t v out)
  set_property-All t v out h g =
      chosen (All GoodEntry) (text_eq t (text "__proto__")) out (out ++ (t, v) ∷ []) (λ e. h)
        (λ e. All-append out (t, v) h g)

  module _ (parse_value : Text → Result T)
      (parses : (raw : Text) (v : T) → parse_value raw ≡ ok v → Good v) where
    add_entry-All :
        (entry : Text) (out out' : List (Text × T))
        → All GoodEntry out
        → add_entry parse_value entry out ≡ ok out'
        → All GoodEntry out'
    unfolding add_entry
    add_entry-All entry out out' h e =
        let (kv, _, e1) = bind-ok (key_and_value (split_at_colon entry)) _ out' e in
        let (name, e2) = then-ok _ _ out' e1 in
        let (fresh, e3) = then-ok _ _ out' e2 in
        let (v, parsed, e4) = bind-ok (parse_value kv.1) _ out' e3 in
        let e5 : ok (set_property (trim kv.0) v out) ≡ ok out' = e4 in
        rw (← value_of-ok e5)
          (set_property-All (trim kv.0) v out h (passed _ name, parses kv.1 v parsed))

    add_entries-All :
        (es : List Text) (out out' : List (Text × T))
        → All GoodEntry out
        → add_entries parse_value es out ≡ ok out'
        → All GoodEntry out'
    unfolding add_entries
    add_entries-All [] out out' h e = rw (← value_of-ok e) h
    add_entries-All (x ∷ es) out out' h e =
        let (next, e1, e2) = bind-ok (add_entry parse_value x out) _ out' e in
        add_entries-All es next out' (add_entry-All x out next h e1) e2

    pub parse_table_scoped_config-All :
        (value : Option Text) (out : List (Text × T))
        → parse_table_scoped_config value parse_value ≡ ok out
        → All GoodEntry out
    unfolding parse_table_scoped_config
    parse_table_scoped_config-All value out e =
        let (_, e1) = then-ok _ _ out e in add_entries-All (trimmed_pieces b';' value) [] out tt e1

-- The fields of a mask: there is one, and each is a field's name.
abbrev pub MaskFields : List Text → Type 0
MaskFields fs = (is_not_empty fs ≡ true) × All (λ f. is_field_name f ≡ true) fs

abbrev pub NonEmpty : Text → Type 0
NonEmpty f = is_not_empty f ≡ true

pub parse_fields-MaskFields :
    (raw : Text) (fs : List Text) → parse_fields raw ≡ ok fs → MaskFields fs
unfolding parse_fields
parse_fields-MaskFields raw fs e =
    let (some_field, e1) = then-ok _ _ fs e in
    let (names, e2) = then-ok _ _ fs e1 in
    let e3 : ok (parse_list (some raw)) ≡ ok fs = e2 in
    rw (← value_of-ok e3) (passed _ some_field, assert_all-All is_field_name _ names)

pub parse_filter-NonEmpty : (raw f : Text) → parse_filter raw ≡ ok f → NonEmpty f
unfolding parse_filter
parse_filter-NonEmpty raw f e = elim (Bool-cases (is_not_empty (trim raw))) [
  | inl h ↦ let e1 : ok (trim raw) ≡ ok f = ground (arith, e, h) in rw (← value_of-ok e1) h
  | inr h ↦ absurd (ground (arith, e, h))
]

pub parse_table_allowlist-All :
    (value : Option Text) (ts : List Text)
    → parse_table_allowlist value ≡ ok ts
    → (parse_list value ≡ ts) × All (λ t. is_table_name t ≡ true) ts
unfolding parse_table_allowlist
parse_table_allowlist-All value ts e =
    let (_, e1) = then-ok _ _ ts e in
    let (names, e2) = then-ok _ _ ts e1 in
    (value_of-ok e2, rw (← value_of-ok e2) (assert_all-All is_table_name _ names))
