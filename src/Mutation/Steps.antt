-- ===== src/Mutation/Steps.antt =====
-- Rules for the steps of a mutating call: requests that are logged, and steps on the host and on the
-- variables of a call.
use snow_mcp.Common.{List, ◌∷◌}
use snow_mcp.Errors.{Result, ok, throw}
use snow_mcp.Exec.{Exec}
use snow_mcp.Exec.Rules.{Triple}
use snow_mcp.Exec.Leaves.{Outcome, Ends, Kept, Leaves-checked}
use snow_mcp.RunBudget.{RunBudget, Metered}
use snow_mcp.Rpc.{metered, Host, SnResponse, send, mapped}
use snow_mcp.Mutation.Trace.{Sent, Traced, tracing, untraced, beside, OfHost, OfCall, metered-Kept}
use snow_mcp.Mutation.Parts.{Calling, on_host, assign, locals, calling}

module _ {W : Type 0} where
  -- A request that is sent: it is logged first.
  pub send-Leaves :
      {R A : Type 0} (I E : List Sent → Type 0) (P : A → List Sent → Type 0)
      (f : R → Result A → Sent) (call : R → Exec W A) (req : R)
      → ((log : List Sent) → I log → (a : A) → P a (f req (ok a) ∷ log))
      → ((log : List Sent) → I log → (r : Result A) → E (f req r ∷ log))
      → Triple (OfHost I) (send (tracing f call req)) (Outcome (λ a. OfHost (P a)) (OfHost E))
  unfolding send
  send-Leaves {R} {A} I E P f call req h k = record {
    ends = λ s i. after (call req s.outside.0) s i;
  }
    where
      after :
          (x : Result A × W) (s : Host (Traced W))
          → OfHost I s
          → Outcome
              (λ a. OfHost (P a))
              (OfHost E)
              (x.0, record s { outside = (x.1, f req x.0 ∷ s.outside.1) })
      after (ok a, w) s i = h s.outside.1 i a
      after (throw e, w) s i = k s.outside.1 i (throw e)

  -- A callback that asks nothing leaves the log.
  pub untraced-Leaves :
      {A : Type 0} (Q : List Sent → Type 0) (m : Exec W A) → Kept (λ t. Q t.1) (untraced A m)
  untraced-Leaves {A} Q m = record { ends = λ t i. after (m t.0) t.1 i }
    where
      after :
          (x : Result A × W) (log : List Sent)
          → Q log
          → Ends (λ t. Q t.1) (λ t. Q t.1) (beside x log)
      after (ok a, w) log i = i
      after (throw e, w) log i = i

  pub mapped-Leaves :
      {A : Type 0} {I E : Host (Traced W) → Type 0} (res : SnResponse A)
      → ((s : Host (Traced W)) → I s → E s)
      → Triple I (mapped res) (Ends I E)
  unfolding mapped
  mapped-Leaves res out = Leaves-checked _ out (λ a e s i. i)

module _ {S : Type 0} where
  -- A step outside the host.
  pub outside-Leaves :
      {A : Type 0} (X : S → Type 0) (P : A → S → Type 0) (E : S → Type 0) (m : Exec (S) A)
      → Triple X m (Outcome P E)
      → Triple (λ h. X h.outside) (send m) (Outcome (λ a h. P a h.outside) (λ h. E h.outside))
  unfolding send
  outside-Leaves {A} X P E m t = record { ends = λ h i. after (m h.outside) h (t.ends h.outside i) }
    where
      after :
          (x : Result A × S) (h : Host (S))
          → Outcome P E x
          → Outcome (λ a h. P a h.outside) (λ h. E h.outside) (x.0, record h { outside = x.1 })
      after (ok a, w) h g = g
      after (throw e, w) h g = g

  -- The meter leaves what is outside.
  pub metered_outside-Kept :
      (X : S → Type 0) (m : RunBudget → Metered) → Kept (λ h. X h.outside) (metered m)
  unfolding metered
  metered_outside-Kept X m = record { ends = λ h i. after (m h.budget) h i }
    where
      after :
          (r : Metered) (h : Host S)
          → X h.outside
          → Ends (λ h. X h.outside) (λ h. X h.outside) (r.0, record h { budget = r.1 })
      after (ok a, b) h i = i
      after (throw e, b) h i = i

module _ {S L : Type 0} where
  -- A step of the host, with the variables as they are.
  pub on_host-Leaves :
      {A : Type 0} (X : Host S → L → Type 0) (P : A → Host S → L → Type 0) (E : Host S → L → Type 0)
      (m : Exec (Host S) A)
      → ((l : L) → Triple (λ h. X h l) m (Outcome (λ a h. P a h l) (λ h. E h l)))
      → Triple
          (λ c. X c.host c.local)
          (on_host m)
          (Outcome (λ a c. P a c.host c.local) (λ c. E c.host c.local))
  unfolding on_host
  on_host-Leaves {A} X P E m h = record {
    ends = λ c i. after (m c.host) c ((h c.local).ends c.host i);
  }
    where
      after :
          (x : Result A × Host S) (c : Calling S L)
          → Outcome (λ a h. P a h c.local) (λ h. E h c.local) x
          → Outcome
              (λ a c. P a c.host c.local)
              (λ c. E c.host c.local)
              (x.0, record c { host = x.1 })
      after (ok a, s) c g = g
      after (throw e, s) c g = g

  pub assign-Leaves :
      {I P E : Calling S L → Type 0} (f : L → L)
      → ((c : Calling S L) → I c → P (record c { local = f c.local }))
      → Triple I (assign f) (Ends P E)
  unfolding assign
  assign-Leaves f h = record { ends = h }

  pub locals-Leaves :
      {I E : Calling S L → Type 0} {P : L → Calling S L → Type 0}
      → ((c : Calling S L) → I c → P c.local c)
      → Triple I (locals {W = S}) (Outcome P E)
  unfolding locals
  locals-Leaves h = record { ends = h }

  -- A call on its host.
  pub calling-Leaves :
      {A : Type 0} (I : Host S → Type 0) (start : L) (m : Exec (Calling S L) A)
      → Triple (λ c. I c.host) m (Ends (λ c. I c.host) (λ c. I c.host))
      → Triple I (calling start m) (Ends I I)
  unfolding calling
  calling-Leaves {A} I start m t = record {
    ends = λ h i. after (m (record { host = h; local = start })) (t.ends _ i);
  }
    where
      after :
          (x : Result A × Calling S L)
          → Ends (λ c. I c.host) (λ c. I c.host) x
          → Ends I I (x.0, x.1.host)
      after (ok a, c) g = g
      after (throw e, c) g = g

module _ {W L : Type 0} where
  pub metered_call-Kept :
      (Q : List Sent → L → Type 0) (m : RunBudget → Metered)
      → Kept (OfCall {W = W} Q) (on_host (metered m))
  metered_call-Kept Q m =
      on_host-Leaves (λ h l. OfHost (λ log. Q log l) h) (λ a h l. OfHost (λ log. Q log l) h)
        (λ h l. OfHost (λ log. Q log l) h) (metered m) (λ l. metered-Kept (λ log. Q log l) m)
