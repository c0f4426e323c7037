-- ===== src/AuthCorrelation/Nonce.antt =====
-- A ticket is claimed at most once before it expires.
use snow_mcp.Common.{ℕ, ◌≤◌, ◌<◌, ◌≡◌, String, true, false, some, List, [], ◌∷◌, All, arith}
use snow_mcp.AuthCorrelation.{Correlations, StoredTicketNonce, consume_ticket_nonce}
use snow_mcp.AuthCorrelation.Once.{
  correlation_slot, oidc_slot, consent_slot, Call, create, create_oidc, create_consent, consume,
  claim_ticket, fire_alarm, perform,
}

-- The time at which a call reads the clock.
abbrev pub Before : {G E : Type 0} → ℕ → Call G E → Type 0
Before at (create k r now) = now < at
Before at (create_oidc k r now) = now < at
Before at (create_consent k r now) = now < at
Before at (consume slot k) = Unit
Before at (claim_ticket n e now) = now < at
Before at (fire_alarm now) = now < at

unfoldable pub perform_all : {G E : Type 0} → List (Call G E) → Correlations G E → Correlations G E
perform_all [] s = s
perform_all (c ∷ cs) s = perform_all cs (perform c s)

module _ {G E : Type 0} where
  -- A ticket is claimed, up to a time.
  abbrev Claimed : ℕ → Correlations G E → Type 0
  Claimed at s = (n : StoredTicketNonce) × (s.ticket_nonce ≡ some n) × (at ≤ n.expires_at)

  perform-Claimed :
      (at : ℕ) (c : Call G E) (s : Correlations G E)
      → Before at c
      → Claimed at s
      → Claimed at (perform c s)
  unfolding perform
  perform-Claimed at (create k r now) s b (n, e, le) = (n, ground (arith, e, b, le), le)
  perform-Claimed at (create_oidc k r now) s b (n, e, le) = (n, ground (arith, e, b, le), le)
  perform-Claimed at (create_consent k r now) s b (n, e, le) = (n, ground (arith, e, b, le), le)
  perform-Claimed at (consume correlation_slot k) s b (n, e, le) = (n, ground (arith, e), le)
  perform-Claimed at (consume oidc_slot k) s b (n, e, le) = (n, ground (arith, e), le)
  perform-Claimed at (consume consent_slot k) s b (n, e, le) = (n, ground (arith, e), le)
  perform-Claimed at (claim_ticket m x now) s b (n, e, le) = (n, ground (arith, e, b, le), le)
  perform-Claimed at (fire_alarm now) s b (n, e, le) = (n, ground (arith, e, b, le), le)

  perform_all-Claimed :
      (at : ℕ) (cs : List (Call G E)) (s : Correlations G E)
      → All (Before at) cs
      → Claimed at s
      → Claimed at (perform_all cs s)
  unfolding perform_all
  perform_all-Claimed at [] s b h = h
  perform_all-Claimed at (c ∷ cs) s b h =
      perform_all-Claimed at cs (perform c s) b.1 (perform-Claimed at c s b.0 h)

  refused :
      (nonce : String) (at at' now : ℕ) (s : Correlations G E)
      → now < at
      → Claimed at s
      → (consume_ticket_nonce nonce at' now s).0 ≡ false
  unfolding consume_ticket_nonce
  refused nonce at at' now s b (n, e, le) = ground (arith, e, b, le)

  claimed :
      (nonce : String) (at now : ℕ) (s : Correlations G E)
      → (consume_ticket_nonce nonce at now s).0 ≡ true
      → Claimed at (consume_ticket_nonce nonce at now s).1
  unfolding consume_ticket_nonce
  claimed nonce at now s h =
      (record { nonce = nonce; expires_at = at }, ground (arith, h), omega arith)

  -- After a claim that succeeds, no claim succeeds at a time before the ticket expires, whatever calls
  -- are made in between at such times.
  pub claim-once :
      (nonce nonce' : String) (at at' now now' : ℕ) (cs : List (Call G E)) (s : Correlations G E)
      → (consume_ticket_nonce nonce at now s).0 ≡ true
      → All (Before at) cs
      → now' < at
      → (consume_ticket_nonce nonce' at' now'
          (perform_all cs (consume_ticket_nonce nonce at now s).1)).0
        ≡ false
  claim-once nonce nonce' at at' now now' cs s h b lt = refused nonce' at at' now' _ lt (
      perform_all-Claimed at cs (consume_ticket_nonce nonce at now s).1 b
        (claimed nonce at now s h))
