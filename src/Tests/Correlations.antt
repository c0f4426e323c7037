-- ===== src/Tests/Correlations.antt =====
-- The single-use records on a short history.
use snow_mcp.Common.{ℕ, ◌≤◌, ◌≡◌, refl, true, false, none, List, [], ◌∷◌, arith}
use snow_mcp.AuthCorrelation.{
  AuthCorrelationRecord, Correlations, cleanup_expired, consume_ticket_nonce, correlation_expiry,
  oidc_expiry, consent_expiry, nonce_expiry,
}
use snow_mcp.AuthCorrelation.Once.{
  Call, create, consume, claim_ticket, fire_alarm, correlation_slot, returns, creations,
  returns-le-creations, perform,
}
use snow_mcp.AuthCorrelation.Nonce.{perform_all, claim-once}
use snow_mcp.AuthCorrelation.Expiry.{Watched, cleanup_expired-Watched}

abbrev empty_object : Correlations ℕ ℕ
empty_object = record {
  correlation = none;
  oidc_correlation = none;
  oidc_consent = none;
  ticket_nonce = none;
  alarm_at = none;
}

abbrev login : AuthCorrelationRecord
login = record {
  user_id = "u1";
  actor_email = none;
  expected_sn_sys_id = none;
  instance_host = "dev1.service-now.com";
  pkce_verifier = "v";
  expires_at = 600;
}

abbrev callbacks : List (Call ℕ ℕ)
callbacks =
    create "s1" login 0
    ∷ consume correlation_slot "s2"
    ∷ consume correlation_slot "s1"
    ∷ consume correlation_slot "s1"
    ∷ fire_alarm 700
    ∷ []

returns-le-creations_example :
    returns correlation_slot "s1" callbacks empty_object ≤ creations correlation_slot "s1" callbacks
returns-le-creations_example =
    returns-le-creations correlation_slot "s1" callbacks empty_object refl

returned_once : returns correlation_slot "s1" callbacks empty_object ≡ 1
unfolding returns perform
returned_once = refl

abbrev between : List (Call ℕ ℕ)
between = fire_alarm 50 ∷ claim_ticket "n2" 300 60 ∷ []

first_claim : (consume_ticket_nonce "n1" 100 0 empty_object).0 ≡ true
unfolding consume_ticket_nonce
first_claim = refl

claim-once_example :
    (consume_ticket_nonce "n1" 400 99
      (perform_all between (consume_ticket_nonce "n1" 100 0 empty_object).1)).0
    ≡ false
claim-once_example =
    claim-once "n1" "n1" 100 400 0 99 between empty_object first_claim
      (omega arith, (omega arith, tt)) (omega arith)

abbrev with_login : Correlations ℕ ℕ
with_login = perform_all (create "s1" login 0 ∷ []) empty_object

cleanup_expired-Watched_example :
    let s = cleanup_expired 100 with_login in
    Watched correlation_expiry 100 s.alarm_at s.correlation
    × Watched oidc_expiry 100 s.alarm_at s.oidc_correlation
    × Watched consent_expiry 100 s.alarm_at s.oidc_consent
    × Watched nonce_expiry 100 s.alarm_at s.ticket_nonce
cleanup_expired-Watched_example = cleanup_expired-Watched 100 with_login
