-- ===== src/Approval/Laws.antt =====
-- When an admin script is approved.
use snow_mcp.Common.{
  ◌≡◌, ◌≢◌, ◌↔◌, ◌⊎◌, inl, inr, refl, ◌∙◌, sym, Bool, true, false, ◌&&◌, ◌||◌, Option, none, some,
  List, [], ◌∷◌, str_eq, str_eq_iff, length, ◌==◌, arith, Bool-cases,
}
use snow_mcp.Errors.{ok}
use snow_mcp.Text.{Text, text_eq, includes}
use snow_mcp.Approval.{
  ApprovalContext, differ_nowhere, constant_time_equal_ascii, match_any, approval_token_matches,
  is_missing, in_group, assert_admin_script_approved,
}

differ_nowhere-eq :
    (same : Bool) (a b : Text)
    → length a ≡ length b
    → differ_nowhere same a b ≡ (same && text_eq a b)
unfolding differ_nowhere text_eq
differ_nowhere-eq same [] [] h = ground arith
differ_nowhere-eq same [] (d ∷ b) h = absurd (omega arith)
differ_nowhere-eq same (c ∷ a) [] h = absurd (omega arith)
differ_nowhere-eq same (c ∷ a) (d ∷ b) h =
    let rest = differ_nowhere-eq (same && (c == d)) a b (omega arith) in ground (arith, rest)

text_eq-length : (a b : Text) → text_eq a b ≡ true → length a ≡ length b
unfolding text_eq
text_eq-length [] [] h = refl
text_eq-length [] (d ∷ b) h = cc
text_eq-length (c ∷ a) [] h = cc
text_eq-length (c ∷ a) (d ∷ b) h =
    let rest = text_eq-length a b (ground (arith, h)) in omega (arith, rest)

-- The comparison in constant time is equality.
constant_time_equal_ascii-eq : (a b : Text) → constant_time_equal_ascii a b ≡ text_eq a b
unfolding constant_time_equal_ascii
constant_time_equal_ascii-eq a b = elim (Bool-cases (text_eq a b)) [
  | inl same ↦
      let len = text_eq-length a b same in
      let scan = differ_nowhere-eq true a b len in ground (arith, same, len, scan)
  | inr other ↦
      let scan = λ (len : length a ≡ length b). differ_nowhere-eq true a b len in
      elim (Bool-cases (length a == length b)) [
        | inl e ↦ let s = scan (ground (arith, e)) in ground (arith, other, s, e)
        | inr e ↦ ground (arith, other, e)
      ]
]

text_eq-sym : (a b : Text) → text_eq a b ≡ text_eq b a
unfolding text_eq
text_eq-sym [] [] = refl
text_eq-sym [] (d ∷ b) = refl
text_eq-sym (c ∷ a) [] = refl
text_eq-sym (c ∷ a) (d ∷ b) = let rest = text_eq-sym a b in ground (arith, rest)

match_any-includes :
    (t : Text) (matched : Bool) (ts : List Text)
    → match_any t matched ts ≡ (matched || includes ts t)
unfolding match_any includes
match_any-includes t matched [] = ground arith
match_any-includes t matched (u ∷ ts) =
    let rest = match_any-includes t (constant_time_equal_ascii t u || matched) ts in
    let same = constant_time_equal_ascii-eq t u ∙ text_eq-sym t u in ground (arith, rest, same)

-- A token was presented that is one of the valid ones.
abbrev pub HasToken : Option Text → Option (List Text) → Type 0
HasToken (some (c ∷ s)) (some ts) = includes ts (c ∷ s) ≡ true
HasToken _ _ = ⊥

approval_token_matches-HasToken :
    (t : Option Text) (ts : Option (List Text))
    → (approval_token_matches t ts ≡ true) ↔ HasToken t ts
unfolding approval_token_matches
approval_token_matches-HasToken none ts = (λ h. cc, λ h. absurd h)
approval_token_matches-HasToken (some []) ts = (λ h. cc, λ h. absurd h)
approval_token_matches-HasToken (some (c ∷ s)) none = (λ h. cc, λ h. absurd h)
approval_token_matches-HasToken (some (c ∷ s)) (some ts) =
    let e = match_any-includes (c ∷ s) false ts in (λ h. sym e ∙ h, λ h. e ∙ h)

-- What an admin script needs.
abbrev pub Approved : ApprovalContext → Type 0
Approved c =
    (is_missing c.reason ≡ false)
    × (includes c.admin_script_allowlist c.actor_user_id ≡ true)
    × (HasToken c.approval_token c.valid_approval_tokens
        ⊎ (in_group c.required_access_group c.actor_access_groups ≡ true))

approved_parts :
    (c : ApprovalContext)
    → str_eq c.mode "admin_script" ≡ true
    → assert_admin_script_approved c ≡ ok tt
    → (is_missing c.reason ≡ false)
      × (includes c.admin_script_allowlist c.actor_user_id ≡ true)
      × ((approval_token_matches c.approval_token c.valid_approval_tokens ≡ true)
          ⊎ (in_group c.required_access_group c.actor_access_groups ≡ true))
unfolding assert_admin_script_approved
approved_parts c m h = (ground (arith, m, h), ground (arith, m, h), ground (arith, m, h))

parts_approved :
    (c : ApprovalContext)
    → is_missing c.reason ≡ false
    → includes c.admin_script_allowlist c.actor_user_id ≡ true
    → (approval_token_matches c.approval_token c.valid_approval_tokens ≡ true)
      ⊎ (in_group c.required_access_group c.actor_access_groups ≡ true)
    → assert_admin_script_approved c ≡ ok tt
unfolding assert_admin_script_approved
parts_approved c a b (inl t) = ground (arith, a, b, t)
parts_approved c a b (inr g) = ground (arith, a, b, g)

other_mode :
    (c : ApprovalContext)
    → str_eq c.mode "admin_script" ≡ false
    → assert_admin_script_approved c ≡ ok tt
unfolding assert_admin_script_approved
other_mode c m = rw m refl

-- The gate lets a call through exactly if its mode is not admin_script, or there is a reason that is
-- not blank, the actor is allowlisted, and there is a second approval: a valid token, or membership in
-- the required group.
pub assert_admin_script_approved_iff :
    (c : ApprovalContext)
    → (assert_admin_script_approved c ≡ ok tt) ↔ ((c.mode ≢ "admin_script") ⊎ Approved c)
assert_admin_script_approved_iff c = (forth (Bool-cases (str_eq c.mode "admin_script")), back)
  where
    forth :
        (str_eq c.mode "admin_script" ≡ true) ⊎ (str_eq c.mode "admin_script" ≡ false)
        → assert_admin_script_approved c ≡ ok tt
        → (c.mode ≢ "admin_script") ⊎ Approved c
    forth (inl m) h = let (a, b, second) = approved_parts c m h in inr (a, b, by_kind second)
      where
        by_kind :
            (approval_token_matches c.approval_token c.valid_approval_tokens ≡ true)
              ⊎ (in_group c.required_access_group c.actor_access_groups ≡ true)
            → HasToken c.approval_token c.valid_approval_tokens
              ⊎ (in_group c.required_access_group c.actor_access_groups ≡ true)
        by_kind (inl t) =
            inl ((approval_token_matches-HasToken c.approval_token c.valid_approval_tokens).0 t)
        by_kind (inr g) = inr g
    forth (inr m) h = inl (λ e. cc (m, (str_eq_iff c.mode "admin_script").1 e))

    back : (c.mode ≢ "admin_script") ⊎ Approved c → assert_admin_script_approved c ≡ ok tt
    back (inl other) = elim (Bool-cases (str_eq c.mode "admin_script")) [
      | inl m ↦ absurd (other ((str_eq_iff c.mode "admin_script").0 m))
      | inr m ↦ other_mode c m
    ]
    back (inr (a, b, inl t)) =
        parts_approved c a b
          (inl ((approval_token_matches-HasToken c.approval_token c.valid_approval_tokens).1 t))
    back (inr (a, b, inr g)) = parts_approved c a b (inr g)
