-- ===== src/AuthCorrelation/Expiry.antt =====
-- The alarm of the object: after a cleanup it stands at the first expiry of what is left.
use snow_mcp.Common.{ℕ, ◌≤◌, ◌<◌, Option, none, some, arith}
use snow_mcp.AuthCorrelation.{
  Correlations, unexpired, correlation_expiry, oidc_expiry, consent_expiry, nonce_expiry,
  cleanup_expired, earliest,
}

-- An entry is not over at a time, and the alarm goes off by its expiry.
abbrev pub Watched : {R : Type 0} → (R → ℕ) → ℕ → Option ℕ → Option R → Type 0
Watched at now alarm none = Unit
Watched at now none (some r) = ⊥
Watched at now (some a) (some r) = (now < at r) × (a ≤ at r)

abbrev Live : {R : Type 0} → (R → ℕ) → ℕ → Option R → Type 0
Live at now none = Unit
Live at now (some r) = now < at r

unexpired-Live :
    {R : Type 0} (at : R → ℕ) (now : ℕ) (o : Option R) → Live at now (unexpired at now o)
unexpired-Live at now none = tt
unexpired-Live at now (some r) = ground arith

earliest-own :
    {R : Type 0} (at : R → ℕ) (now : ℕ) (next : Option ℕ) (o : Option R)
    → Live at now o
    → Watched at now (earliest at next o) o
earliest-own at now next none h = tt
earliest-own at now none (some r) h = (h, omega arith)
earliest-own at now (some n) (some r) h = (h, omega arith)

earliest-other :
    {R T : Type 0} (at : R → ℕ) (at' : T → ℕ) (now : ℕ) (next : Option ℕ) (o : Option R)
    (o' : Option T)
    → Watched at' now next o'
    → Watched at' now (earliest at next o) o'
earliest-other at at' now next o none h = tt
earliest-other at at' now next none (some t) h = h
earliest-other at at' now none (some r) (some t) h = absurd h
earliest-other at at' now (some n) (some r) (some t) h = (h.0, omega (arith, h.1))

module _ {G E : Type 0} where
  -- After a cleanup nothing that has expired is stored; if anything is, the alarm is set, and goes off
  -- no later than at its expiry.
  pub cleanup_expired-Watched :
      (now : ℕ) (s : Correlations G E)
      → let s' = cleanup_expired now s in
        Watched correlation_expiry now s'.alarm_at s'.correlation
        × Watched oidc_expiry now s'.alarm_at s'.oidc_correlation
        × Watched consent_expiry now s'.alarm_at s'.oidc_consent
        × Watched nonce_expiry now s'.alarm_at s'.ticket_nonce
  unfolding cleanup_expired
  cleanup_expired-Watched now s =
      let c = unexpired correlation_expiry now s.correlation in
      let t = unexpired nonce_expiry now s.ticket_nonce in
      let o = unexpired oidc_expiry now s.oidc_correlation in
      let d = unexpired consent_expiry now s.oidc_consent in
      let first = earliest correlation_expiry none c in
      let second = earliest nonce_expiry first t in
      let third = earliest oidc_expiry second o in
      let later_o = earliest-other consent_expiry oidc_expiry now third d o in
      let later_t = λ (h : Watched nonce_expiry now second t).
        earliest-other consent_expiry nonce_expiry now third d t
          (earliest-other oidc_expiry nonce_expiry now second o t h) in
      let later_c = λ (h : Watched correlation_expiry now first c).
        earliest-other consent_expiry correlation_expiry now third d c (
          earliest-other oidc_expiry correlation_expiry now second o c
            (earliest-other nonce_expiry correlation_expiry now first t c h)) in
      (
        later_c
            (earliest-own correlation_expiry now none c (unexpired-Live correlation_expiry now _)),
        later_o (earliest-own oidc_expiry now second o (unexpired-Live oidc_expiry now _)),
        earliest-own consent_expiry now third d (unexpired-Live consent_expiry now _),
        later_t (earliest-own nonce_expiry now first t (unexpired-Live nonce_expiry now _)),
      )
