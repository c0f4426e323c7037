-- ===== src/Mutation/Measure.antt =====
-- Effects and claims counted over the steps of a call, on its host and outside.
use snow_mcp.Common.{ℕ, Option, none, some, arith, ap}
use snow_mcp.Errors.{Result, ok, throw}
use snow_mcp.Exec.{Exec}
use snow_mcp.Exec.Rules.{Triple}
use snow_mcp.Exec.Leaves.{Ends, Kept, Leaves-state}
use snow_mcp.Guard.Audit.{AuditRecord}
use snow_mcp.Guard.{LedgerHandle}
use snow_mcp.Guard.Balance.{Step, Covered, Spends, HandleLaws, AuditLaw}
use snow_mcp.Rpc.{send}
use snow_mcp.Mutation.Parts.{Calling, on_host, from_outside, call_on, handle_on}
use snow_mcp.Mutation.Steps.{outside-Leaves}

module _ {S : Type 0} (Good : S → Type 0) (effects claims : S → ℕ) where
  -- What is left after covered steps from a state, up to `spare` effects.
  pub record Since (spare : ℕ) (start s : S) : Type 0 where
    pub within : Step Good effects claims spare start s

  covered_step :
      {A : Type 0} (start s : S) (r : Result A × S)
      → Since 0 start s
      → Step Good effects claims 0 s r.1
      → Ends (Since 0 start) (Since 0 start) r
  covered_step start s (ok a, t) i g = let w = i.within in record { within = (omega arith, g.1) }
  covered_step start s (throw e, t) i g = let w = i.within in record { within = (omega arith, g.1) }

  pub Covered-Kept :
      {A : Type 0} (start : S) (m : Exec S A)
      → Covered Good effects claims m
      → Kept (Since 0 start) m
  Covered-Kept start m h = record { ends = λ s i. covered_step start s (m s) i (h.at s i.within.1) }

module _ {W : Type 0} (Good : W → Type 0) (effects claims : W → ℕ) where
  abbrev pub At : ℕ → W → W → Type 0
  At = Since Good effects claims

  module _ {L : Type 0} where
    abbrev pub GoodCall : Calling W L → Type 0
    GoodCall c = Good c.host.outside

    abbrev pub effects_of : Calling W L → ℕ
    effects_of c = effects c.host.outside

    abbrev pub claims_of : Calling W L → ℕ
    claims_of c = claims c.host.outside

    -- Covered from every start, it is covered.
    pub Covered-of :
        {A : Type 0} (m : Exec (Calling W L) A)
        → ((start : W) → Kept (λ c. At 0 start c.host.outside) m)
        → Covered GoodCall effects_of claims_of m
    Covered-of m h = record {
      at = λ c good.
          ((Leaves-state (λ c'. At 0 c.host.outside c'.host.outside) m (h c.host.outside)).ends c
            (record { within = (omega arith, good) })).within;
    }

    pub Spends-of :
        {A : Type 0} (m : Exec (Calling W L) A)
        → ((start : W)
            → Triple (λ c. At 0 start c.host.outside) m (λ x. At 1 start x.1.host.outside))
        → Spends GoodCall effects_of claims_of m
    Spends-of m h = record {
      at = λ c good. ((h c.host.outside).ends c (record { within = (omega arith, good) })).within;
    }

    call_after :
        {A : Type 0} (start : W) (s : Calling W L) (r : Result A × Calling W L)
        → At 0 start s.host.outside
        → Step GoodCall effects_of claims_of 0 s r.1
        → Ends (λ c. At 0 start c.host.outside) (λ c. At 0 start c.host.outside) r
    call_after start s (ok a, t) i g = let w = i.within in record { within = (omega arith, g.1) }
    call_after start s (throw e, t) i g = let w = i.within in record { within = (omega arith, g.1) }

    pub call_Kept :
        {A : Type 0} (start : W) (m : Exec (Calling W L) A)
        → Covered GoodCall effects_of claims_of m
        → Kept (λ c. At 0 start c.host.outside) m
    call_Kept start m h = record { ends = λ s i. call_after start s (m s) i (h.at s i.within.1) }

    -- A callback outside is covered as it is.
    pub from_outside-Covered :
        {A : Type 0} (m : Exec W A)
        → Covered Good effects claims m
        → Covered GoodCall effects_of claims_of (from_outside {L = L} A m)
    unfolding on_host send
    from_outside-Covered m h = record { at = λ c good. h.at c.host.outside good }

    pub handle_on-HandleLaws :
        {T : Type 0} (l : LedgerHandle W T)
        → HandleLaws Good effects claims l
        → HandleLaws GoodCall effects_of claims_of (handle_on (from_outside {L = L}) l)
    unfolding on_host send
    handle_on-HandleLaws l h = record {
      begin_new = λ hash s t good e.
          h.begin_new hash s.host.outside t.host.outside good (ap (λ x. (x.0, x.1.host.outside)) e);
      begin_other = λ hash. from_outside-Covered _ (h.begin_other hash);
      complete = λ r. from_outside-Covered _ (h.complete r);
      fail = from_outside-Covered _ h.fail;
      mark_indeterminate = from_outside-Covered _ h.mark_indeterminate;
    }

  pub audit_on-AuditLaw :
      (L : Type 0) (o : Option (AuditRecord → Exec W (Unit {0})))
      → AuditLaw Good effects claims o
      → AuditLaw {S = Calling W L} GoodCall effects_of claims_of (call_on from_outside o)
  audit_on-AuditLaw L none h = tt
  audit_on-AuditLaw L (some sink) h = λ r. from_outside-Covered _ (h r)

  -- A step of the host that sends one request.
  pub send_covered :
      {A : Type 0} (start : W) (m : Exec W A)
      → Covered Good effects claims m
      → Kept (λ h. At 0 start h.outside) (send m)
  send_covered start m h =
      outside-Leaves (At 0 start) (λ a. At 0 start) (At 0 start) m
        (Covered-Kept Good effects claims start m h)

  spend_after :
      {A : Type 0} (start s : W) (r : Result A × W)
      → At 0 start s
      → Step Good effects claims 1 s r.1
      → Ends (At 1 start) (At 1 start) r
  spend_after start s (ok a, t) i g = let w = i.within in record { within = (omega arith, g.1) }
  spend_after start s (throw e, t) i g = let w = i.within in record { within = (omega arith, g.1) }

  pub send_spent :
      {A : Type 0} (start : W) (m : Exec W A)
      → Spends Good effects claims m
      → Triple
          (λ h. At 0 start h.outside)
          (send m)
          (Ends (λ h. At 1 start h.outside) (λ h. At 1 start h.outside))
  send_spent start m h =
      outside-Leaves (At 0 start) (λ a. At 1 start) (At 1 start) m
        (record { ends = λ s i. spend_after start s (m s) i (h.at s i.within.1) })

  pub weaker : (start s : W) → At 0 start s → At 1 start s
  weaker start s i = let w = i.within in record { within = (omega arith, w.1) }
