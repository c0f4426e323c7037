-- ===== src/Mutation/Signing.antt =====
-- The signing of a script under the traced outside, and what an approval gate that passes has checked.
use snow_mcp.Common.{◌≡◌, refl, true, Option, none, some, [], ◌∷◌, str_eq_iff, arith, inl, inr}
use snow_mcp.Errors.{ok}
use snow_mcp.Exec.{Exec}
use snow_mcp.Text.{Text}
use snow_mcp.Mode.{Mode}
use snow_mcp.RunBudget.{RunBudget}
use snow_mcp.Approval.{ApprovalContext, assert_admin_script_approved}
use snow_mcp.Approval.Laws.{Approved, assert_admin_script_approved_iff}
use snow_mcp.Rpc.{has_capability, run_server_script}
use snow_mcp.Mutation.Parts.{ActorClaims}
use snow_mcp.Mutation.Script.{Signing, ScriptDeps, with_user}
use snow_mcp.Mutation.Trace.{Traced, untraced}

module _ {W : Type 0} where
  -- The resolver and the signing, beside the log.
  abbrev pub traced_resolver :
      Option (Exec (RunBudget × W) Text) → Option (Exec (RunBudget × Traced W) Text)
  traced_resolver none = none
  traced_resolver (some m) =
      some (λ (b, (w, log)). let (r, (b', w')) = m (b, w) in (r, (b', (w', log))))

  abbrev pub traced_signing : Signing W → Signing (Traced W)
  traced_signing signing = record {
    claims = signing.claims;
    now = λ t. signing.now t.0;
    nonce = untraced Text signing.nonce;
    sha256 = signing.sha256;
    sign = signing.sign;
    resolve_effective_user_sys_id = traced_resolver signing.resolve_effective_user_sys_id;
  }

  abbrev pub traced_option : Option (Signing W) → Option (Signing (Traced W))
  traced_option none = none
  traced_option (some s) = some (traced_signing s)

  abbrev pub traced_script_deps : ScriptDeps W → ScriptDeps (Traced W)
  traced_script_deps d = record {
    signing = traced_option d.signing;
    executor_path = d.executor_path;
    body_bytes = d.body_bytes;
  }

-- The signing of a traced call is that of the call.
pub traced_option-some :
    {W : Type 0} (o : Option (Signing W)) (signing : Signing (Traced W))
    → traced_option o ≡ some signing
    → (plain : Signing W) × (o ≡ some plain) × (signing ≡ traced_signing plain)
traced_option-some none signing h = absurd (cc h)
traced_option-some (some plain) signing h = (plain, refl, cc)

pub has_capability-admin_script :
    (mode : Mode) → has_capability mode run_server_script ≡ some true → mode ≡ "admin_script"
unfolding has_capability
has_capability-admin_script mode h = (str_eq_iff mode "admin_script").0 (ground (arith, h))

-- In that mode the gate lets only approved calls through.
pub gate-Approved :
    (c : ApprovalContext)
    → c.mode ≡ "admin_script"
    → assert_admin_script_approved c ≡ ok tt
    → Approved c
gate-Approved c m h = elim ((assert_admin_script_approved_iff c).0 h) [
  | inl other ↦ absurd (other m)
  | inr approved ↦ approved
]

pub with_user-actor :
    (s : Text) (claims : ActorClaims)
    → (with_user s claims).mcp_actor_user_id ≡ claims.mcp_actor_user_id
with_user-actor [] claims = refl
with_user-actor (c ∷ s) claims = refl
