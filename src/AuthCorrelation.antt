-- ===== src/AuthCorrelation.antt =====
-- `AuthCorrelationDO` of packages/mcp-server/src/do/auth-correlation.ts: the single-use records of the
-- authorization flows, and the one-shot claim of a ticket.
-- An operation takes the time that it reads; the input gate runs one at a time. The grant's props and
-- the sealed token are of types of their own, `G` and `E`.
pub mod Once
pub mod Nonce
pub mod Expiry
use snow_mcp.Common.{
  ℕ, min, String, Bool, true, false, Option, none, some, List, leb, str_eq, if◌then◌else◌,
}

pub record AuthCorrelationRecord : Type 0 where
  pub user_id : String
  pub actor_email : Option String
  pub expected_sn_sys_id : Option String
  pub instance_host : String
  pub pkce_verifier : String
  pub expires_at : ℕ

pub data Resource : Type 0 where
  one_resource : String → Resource
  resource_list : List String → Resource

pub record OidcAuthRequestInfo : Type 0 where
  pub response_type : String
  pub client_id : String
  pub redirect_uri : String
  pub scope : List String
  pub state : String
  pub code_challenge : Option String
  pub code_challenge_method : Option String
  pub resource : Option Resource

pub record OidcCorrelationRecord : Type 0 where
  pub auth_request : OidcAuthRequestInfo
  pub granted_scopes : List String
  pub nonce : String
  pub pkce_verifier : String
  pub expires_at : ℕ

pub record OidcConsentRecord (G E : Type 0) : Type 0 where
  pub auth_request : OidcAuthRequestInfo
  pub granted_scopes : List String
  pub grant_props : G
  pub sealed_oidc_refresh_token : Option E
  pub user_id : String
  pub client_name : Option String
  pub expires_at : ℕ

-- A record as it is stored, with its opaque key: the `state` or the `nonce`.
pub record Keyed (R : Type 0) : Type 0 where
  pub key : String
  pub entry : R

pub record StoredTicketNonce : Type 0 where
  pub nonce : String
  pub expires_at : ℕ

-- The storage of the object, and its alarm.
pub record Correlations (G E : Type 0) : Type 0 where
  pub correlation : Option (Keyed AuthCorrelationRecord)
  pub oidc_correlation : Option (Keyed OidcCorrelationRecord)
  pub oidc_consent : Option (Keyed (OidcConsentRecord G E))
  pub ticket_nonce : Option StoredTicketNonce
  pub alarm_at : Option ℕ

-- `text ? { … } : {}`: an empty text is left out.
abbrev pub truthy : Option String → Option String
truthy none = none
truthy (some s) = if str_eq s "" then none else some s

-- What is left of an entry at a time.
abbrev pub unexpired : {R : Type 0} → (R → ℕ) → ℕ → Option R → Option R
unexpired at now none = none
unexpired at now (some r) = if leb (at r) now then none else some r

-- `Math.min(next ?? at, at)`, for an entry that is left.
abbrev earliest : {R : Type 0} → (R → ℕ) → Option ℕ → Option R → Option ℕ
earliest at next none = next
earliest at none (some r) = some (at r)
earliest at (some n) (some r) = some (min n (at r))

abbrev pub correlation_expiry : Keyed AuthCorrelationRecord → ℕ
correlation_expiry k = k.entry.expires_at

abbrev pub oidc_expiry : Keyed OidcCorrelationRecord → ℕ
oidc_expiry k = k.entry.expires_at

abbrev pub consent_expiry : {G E : Type 0} → Keyed (OidcConsentRecord G E) → ℕ
consent_expiry k = k.entry.expires_at

abbrev pub nonce_expiry : StoredTicketNonce → ℕ
nonce_expiry n = n.expires_at

-- What `consumeRecord` returns.
abbrev pub shown_correlation : AuthCorrelationRecord → AuthCorrelationRecord
shown_correlation r = record r {
  actor_email = truthy r.actor_email;
  expected_sn_sys_id = truthy r.expected_sn_sys_id;
}

abbrev pub shown_consent : {G E : Type 0} → OidcConsentRecord G E → OidcConsentRecord G E
shown_consent r = record r { client_name = truthy r.client_name }

-- The stored entry, if it has the key.
abbrev pub matching : {R : Type 0} → String → Option (Keyed R) → Option R
matching key none = none
matching key (some k) = if str_eq k.key key then some k.entry else none

module _ {G E : Type 0} where
  unfoldable pub cleanup_expired : ℕ → Correlations G E → Correlations G E
  cleanup_expired now s =
      let c = unexpired correlation_expiry now s.correlation in
      let t = unexpired nonce_expiry now s.ticket_nonce in
      let o = unexpired oidc_expiry now s.oidc_correlation in
      let d = unexpired consent_expiry now s.oidc_consent in
      record {
        correlation = c;
        oidc_correlation = o;
        oidc_consent = d;
        ticket_nonce = t;
        alarm_at =
            earliest consent_expiry
              (earliest oidc_expiry (earliest nonce_expiry (earliest correlation_expiry none c) t)
                o)
              d;
      }

  unfoldable pub create_record :
      String → AuthCorrelationRecord → ℕ → Correlations G E → Correlations G E
  unfolding cleanup_expired
  create_record state r now s = record (cleanup_expired now s) {
    correlation = some (record { key = state; entry = r });
    alarm_at = some r.expires_at;
  }

  unfoldable pub create_oidc_record :
      String → OidcCorrelationRecord → ℕ → Correlations G E → Correlations G E
  unfolding cleanup_expired
  create_oidc_record state r now s = record (cleanup_expired now s) {
    oidc_correlation = some (record { key = state; entry = r });
    alarm_at = some r.expires_at;
  }

  unfoldable pub create_oidc_consent_record :
      String → OidcConsentRecord G E → ℕ → Correlations G E → Correlations G E
  unfolding cleanup_expired
  create_oidc_consent_record nonce r now s = record (cleanup_expired now s) {
    oidc_consent = some (record { key = nonce; entry = r });
    alarm_at = some r.expires_at;
  }

  abbrev consumed_correlation :
      Option AuthCorrelationRecord
      → Correlations G E
      → Option AuthCorrelationRecord × Correlations G E
  consumed_correlation none s = (none, s)
  consumed_correlation (some r) s =
      (some (shown_correlation r), record s { correlation = none; alarm_at = none })

  unfoldable pub consume_record :
      String → Correlations G E → Option AuthCorrelationRecord × Correlations G E
  consume_record state s = consumed_correlation (matching state s.correlation) s

  abbrev consumed_oidc :
      Option OidcCorrelationRecord
      → Correlations G E
      → Option OidcCorrelationRecord × Correlations G E
  consumed_oidc none s = (none, s)
  consumed_oidc (some r) s = (some r, record s { oidc_correlation = none; alarm_at = none })

  unfoldable pub consume_oidc_record :
      String → Correlations G E → Option OidcCorrelationRecord × Correlations G E
  consume_oidc_record state s = consumed_oidc (matching state s.oidc_correlation) s

  abbrev consumed_consent :
      Option (OidcConsentRecord G E)
      → Correlations G E
      → Option (OidcConsentRecord G E) × Correlations G E
  consumed_consent none s = (none, s)
  consumed_consent (some r) s =
      (some (shown_consent r), record s { oidc_consent = none; alarm_at = none })

  unfoldable pub consume_oidc_consent_record :
      String → Correlations G E → Option (OidcConsentRecord G E) × Correlations G E
  consume_oidc_consent_record nonce s = consumed_consent (matching nonce s.oidc_consent) s

  abbrev claim_nonce :
      Option StoredTicketNonce → String → ℕ → Correlations G E → Bool × Correlations G E
  claim_nonce (some n) nonce at s = (false, s)
  claim_nonce none nonce at s = (
    true,
    record s {
      ticket_nonce = some (record { nonce = nonce; expires_at = at });
      alarm_at = some at;
    },
  )

  unfoldable pub consume_ticket_nonce : String → ℕ → ℕ → Correlations G E → Bool × Correlations G E
  unfolding cleanup_expired
  consume_ticket_nonce nonce expires_at now s =
      let s' = cleanup_expired now s in claim_nonce s'.ticket_nonce nonce expires_at s'

  unfoldable pub alarm : ℕ → Correlations G E → Correlations G E
  unfolding cleanup_expired
  alarm now s = cleanup_expired now s
