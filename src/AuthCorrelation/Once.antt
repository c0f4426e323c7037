-- ===== src/AuthCorrelation/Once.antt =====
-- A record is consumed at most once.
use snow_mcp.Common.{
  ℕ, ◌+◌, ◌≤◌, ◌≡◌, refl, String, Bool, true, false, Option, none, some, List, [], ◌∷◌, arith,
  str_eq, str_eq_iff, if◌then◌else◌,
}
use snow_mcp.AuthCorrelation.{
  AuthCorrelationRecord, OidcCorrelationRecord, OidcConsentRecord, Keyed, Correlations, matching,
  unexpired, correlation_expiry, oidc_expiry, consent_expiry, cleanup_expired, create_record,
  create_oidc_record, create_oidc_consent_record, consume_record, consume_oidc_record,
  consume_oidc_consent_record, consume_ticket_nonce, alarm,
}

-- The three kinds of record that an object holds.
pub data Slot : Type 0 where
  correlation_slot oidc_slot consent_slot : Slot

pub data Call (G E : Type 0) : Type 0 where
  create : String → AuthCorrelationRecord → ℕ → Call G E
  create_oidc : String → OidcCorrelationRecord → ℕ → Call G E
  create_consent : String → OidcConsentRecord G E → ℕ → Call G E
  consume : Slot → String → Call G E
  claim_ticket : String → (expires_at now : ℕ) → Call G E
  fire_alarm : ℕ → Call G E

abbrev one_if_some : {R : Type 0} → Option R → ℕ
one_if_some none = 0
one_if_some (some r) = 1

abbrev one_if : Bool → ℕ
one_if true = 1
one_if false = 0

module _ {G E : Type 0} where
  unfoldable pub perform : Call G E → Correlations G E → Correlations G E
  unfolding create_record create_oidc_record create_oidc_consent_record consume_record
      consume_oidc_record consume_oidc_consent_record consume_ticket_nonce alarm
  perform (create k r now) s = create_record k r now s
  perform (create_oidc k r now) s = create_oidc_record k r now s
  perform (create_consent k r now) s = create_oidc_consent_record k r now s
  perform (consume correlation_slot k) s = (consume_record k s).1
  perform (consume oidc_slot k) s = (consume_oidc_record k s).1
  perform (consume consent_slot k) s = (consume_oidc_consent_record k s).1
  perform (claim_ticket n at now) s = (consume_ticket_nonce n at now s).1
  perform (fire_alarm now) s = alarm now s

  -- Whether a call is a consume of the slot with the key, and returns a record.
  abbrev pub returned : Slot → String → Call G E → Correlations G E → ℕ
  returned correlation_slot key (consume correlation_slot k) s =
      if str_eq k key then one_if_some (consume_record k s).0 else 0
  returned oidc_slot key (consume oidc_slot k) s =
      if str_eq k key then one_if_some (consume_oidc_record k s).0 else 0
  returned consent_slot key (consume consent_slot k) s =
      if str_eq k key then one_if_some (consume_oidc_consent_record k s).0 else 0
  returned _ key _ s = 0

  -- Whether a call creates a record of the slot with the key.
  abbrev pub created : Slot → String → Call G E → ℕ
  created correlation_slot key (create k r now) = one_if (str_eq k key)
  created oidc_slot key (create_oidc k r now) = one_if (str_eq k key)
  created consent_slot key (create_consent k r now) = one_if (str_eq k key)
  created _ key _ = 0

  unfoldable pub returns : Slot → String → List (Call G E) → Correlations G E → ℕ
  returns slot key [] s = 0
  returns slot key (c ∷ cs) s = returned slot key c s + returns slot key cs (perform c s)

  unfoldable pub creations : Slot → String → List (Call G E) → ℕ
  creations slot key [] = 0
  creations slot key (c ∷ cs) = created slot key c + creations slot key cs

  -- Whether the slot holds a record with the key.
  abbrev pub holds : Slot → String → Correlations G E → ℕ
  holds correlation_slot key s = one_if_some (matching key s.correlation)
  holds oidc_slot key s = one_if_some (matching key s.oidc_correlation)
  holds consent_slot key s = one_if_some (matching key s.oidc_consent)

holds-unexpired :
    {R : Type 0} (at : Keyed R → ℕ) (now : ℕ) (key : String) (o : Option (Keyed R))
    → one_if_some (matching key (unexpired at now o)) ≤ one_if_some (matching key o)
holds-unexpired at now key none = omega arith
holds-unexpired at now key (some k) = ground arith

le_zero_add : {m n : ℕ} → m ≤ n → 0 + m ≤ 0 + n
le_zero_add h = omega arith

module _ {G E : Type 0} where
  holds-cleanup :
      (slot : Slot) (key : String) (now : ℕ) (s : Correlations G E)
      → 0 + holds slot key (cleanup_expired now s) ≤ 0 + holds slot key s
  unfolding cleanup_expired
  holds-cleanup correlation_slot key now s =
      le_zero_add (holds-unexpired correlation_expiry now key s.correlation)
  holds-cleanup oidc_slot key now s =
      le_zero_add (holds-unexpired oidc_expiry now key s.oidc_correlation)
  holds-cleanup consent_slot key now s =
      le_zero_add (holds-unexpired consent_expiry now key s.oidc_consent)

  -- What one call does to the record of a key.
  abbrev Accounted : Slot → String → Call G E → Correlations G E → Type 0
  Accounted slot key c s =
      returned slot key c s + holds slot key (perform c s) ≤ created slot key c + holds slot key s

  correlation_step :
      (key : String) (c : Call G E) (s : Correlations G E) → Accounted correlation_slot key c s
  unfolding perform
  correlation_step key (create k r now) s = ground arith
  correlation_step key (create_oidc k r now) s = holds-cleanup correlation_slot key now s
  correlation_step key (create_consent k r now) s = holds-cleanup correlation_slot key now s
  correlation_step key (consume correlation_slot k) s = by_entry s.correlation refl
    where
      by_entry :
          (o : Option (Keyed AuthCorrelationRecord))
          → s.correlation ≡ o
          → Accounted correlation_slot key (consume correlation_slot k) s
      by_entry none e = ground (arith, e)
      by_entry (some r) e =
          ground (arith, e, str_eq_iff r.key k, str_eq_iff k key, str_eq_iff r.key key)
  correlation_step key (consume oidc_slot k) s = ground arith
  correlation_step key (consume consent_slot k) s = ground arith
  correlation_step key (claim_ticket n at now) s =
      let h = holds-cleanup correlation_slot key now s in ground (arith, h)
  correlation_step key (fire_alarm now) s = holds-cleanup correlation_slot key now s

  oidc_step : (key : String) (c : Call G E) (s : Correlations G E) → Accounted oidc_slot key c s
  unfolding perform
  oidc_step key (create k r now) s = holds-cleanup oidc_slot key now s
  oidc_step key (create_oidc k r now) s = ground arith
  oidc_step key (create_consent k r now) s = holds-cleanup oidc_slot key now s
  oidc_step key (consume correlation_slot k) s = ground arith
  oidc_step key (consume oidc_slot k) s = by_entry s.oidc_correlation refl
    where
      by_entry :
          (o : Option (Keyed OidcCorrelationRecord))
          → s.oidc_correlation ≡ o
          → Accounted oidc_slot key (consume oidc_slot k) s
      by_entry none e = ground (arith, e)
      by_entry (some r) e =
          ground (arith, e, str_eq_iff r.key k, str_eq_iff k key, str_eq_iff r.key key)
  oidc_step key (consume consent_slot k) s = ground arith
  oidc_step key (claim_ticket n at now) s =
      let h = holds-cleanup oidc_slot key now s in ground (arith, h)
  oidc_step key (fire_alarm now) s = holds-cleanup oidc_slot key now s

  consent_step :
      (key : String) (c : Call G E) (s : Correlations G E) → Accounted consent_slot key c s
  unfolding perform
  consent_step key (create k r now) s = holds-cleanup consent_slot key now s
  consent_step key (create_oidc k r now) s = holds-cleanup consent_slot key now s
  consent_step key (create_consent k r now) s = ground arith
  consent_step key (consume correlation_slot k) s = ground arith
  consent_step key (consume oidc_slot k) s = ground arith
  consent_step key (consume consent_slot k) s = by_entry s.oidc_consent refl
    where
      by_entry :
          (o : Option (Keyed (OidcConsentRecord G E)))
          → s.oidc_consent ≡ o
          → Accounted consent_slot key (consume consent_slot k) s
      by_entry none e = ground (arith, e)
      by_entry (some r) e =
          ground (arith, e, str_eq_iff r.key k, str_eq_iff k key, str_eq_iff r.key key)
  consent_step key (claim_ticket n at now) s =
      let h = holds-cleanup consent_slot key now s in ground (arith, h)
  consent_step key (fire_alarm now) s = holds-cleanup consent_slot key now s

  step : (slot : Slot) (key : String) (c : Call G E) (s : Correlations G E) → Accounted slot key c s
  step correlation_slot key c s = correlation_step key c s
  step oidc_slot key c s = oidc_step key c s
  step consent_slot key c s = consent_step key c s

  returns-le :
      (slot : Slot) (key : String) (cs : List (Call G E)) (s : Correlations G E)
      → returns slot key cs s ≤ creations slot key cs + holds slot key s
  unfolding returns creations
  returns-le slot key [] s = omega arith
  returns-le slot key (c ∷ cs) s =
      omega (arith, step slot key c s, returns-le slot key cs (perform c s))

  -- From an object without such a record, a record of a kind is handed out under a key at most as often
  -- as one was created under it, whatever the calls, their order and their times.
  pub returns-le-creations :
      (slot : Slot) (key : String) (cs : List (Call G E)) (s : Correlations G E)
      → holds slot key s ≡ 0
      → returns slot key cs s ≤ creations slot key cs
  returns-le-creations slot key cs s h = omega (arith, returns-le slot key cs s)
