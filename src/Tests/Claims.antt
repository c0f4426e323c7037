-- ===== src/Tests/Claims.antt =====
-- A client that counts its PATCHes, and a ledger that counts its claims.
use snow_mcp.Common.{ap, ℕ, suc, ◌+◌, ◌≤◌, arith, true, false, none, some, [], ◌∷◌}
use snow_mcp.Errors.{ok}
use snow_mcp.SnErrors.{no_error}
use snow_mcp.Text.{text}
use snow_mcp.ReplayPayload.{JsValue, other_value}
use snow_mcp.Guard.{LedgerHandle, claim_new}
use snow_mcp.Rpc.{Row, RpcDeps, result_body}
use snow_mcp.Mutation.Parts.{WriteClient, MutationDeps, MutationTools}
use snow_mcp.Mutation.Sent.{call_update}
use snow_mcp.Mutation.WriteLaws.{WriteLaws}
use snow_mcp.Mutation.Claims.{after_call, effects-le-claims}
use snow_mcp.Tests.Guards.{ann}
use snow_mcp.Tests.Policies.{host, incident, incident_policy}
use snow_mcp.Tests.Reads.{host_of}
use snow_mcp.Tests.Writes.{args}

pub record Counts : Type 0 where
  pub effects : ℕ
  pub claims : ℕ

abbrev found_row : Row ℕ
found_row = (text "number", 1) ∷ []

abbrev deps : RpcDeps Counts ℕ
deps = record {
  http = record {
    get_rows = λ req w. (
      ok (record {
        status = 200;
        error_body = no_error;
        body = result_body (some (found_row ∷ []));
      }),
      w,
    );
    get_row = λ req w. (
      ok (record { status = 200; error_body = no_error; body = result_body (some found_row) }),
      w,
    );
    get_stats = λ req w.
        (ok (record { status = 200; error_body = no_error; body = result_body (some 2) }), w);
  };
  instance_host = host;
  effective_mode = "write";
  actor_policy = incident_policy;
  query_bytes = λ q. 20;
  rows_bytes = λ rows. 10;
  row_bytes = λ row. 5;
  stats_bytes = λ v. 2;
}

abbrev client : WriteClient Counts ℕ ℕ
client = record {
  patch_row = λ req w. (
    ok (record { status = 200; error_body = no_error; body = result_body (some found_row) }),
    record w { effects = suc w.effects },
  );
  post_script = λ req w. (
    ok (record { status = 200; error_body = no_error; json = some (other_value 7) }),
    record w { effects = suc w.effects },
  );
}

abbrev handle : LedgerHandle Counts (JsValue ℕ)
handle = record {
  begin = λ hash w. (ok claim_new, record w { claims = suc w.claims });
  complete = λ r w. (ok tt, w);
  fail = λ w. (ok tt, w);
  mark_indeterminate = λ w. (ok tt, w);
}

abbrev mutation : MutationDeps Counts ℕ ℕ ℕ
mutation = record {
  run_context = record {
    request_id = "r1";
    reason = none;
    run_key = some (text "key");
    approval_token = none;
  };
  identity = ann;
  now = λ w. 5;
  durability_required = true;
  mutation_freeze = false;
  ledger = some (λ ordinal. handle);
  audit = some (λ r w. (ok tt, w));
  capture_snapshot = some (λ input w. (ok true, w));
  snapshot_enabled_tables = some (incident ∷ []);
  approval = none;
}

abbrev tools : MutationTools Counts ℕ ℕ ℕ
tools = record {
  string_of = λ t. "text";
  date_of = λ n. "2026-01-01";
  hash_value = λ ts. "hash";
  actor_policy_scope_fingerprint = λ p. text "scope";
  utf8_length = λ t. 10;
  stringify = λ fs. text "{}";
  reference_value = λ v. none;
  row_value = λ r. other_value 5;
  replay_json = λ v. 55 ∷ [];
  parse_json = λ s. ok (other_value 5);
  value_bytes = λ v. 1;
  audit_tools = record { hash_value = λ r w. (ok "hash", w); redact = λ r. r };
}

abbrev AnyCounts : Counts → Type 0
AnyCounts w = Unit

abbrev effects_of : Counts → ℕ
effects_of w = w.effects

abbrev claims_of : Counts → ℕ
claims_of w = w.claims

laws : WriteLaws deps tools client mutation AnyCounts effects_of claims_of
laws = record {
  rows = λ req. record { at = λ w good. (omega arith, good) };
  row = λ req. record { at = λ w good. (omega arith, good) };
  patch = λ req. record { at = λ w good. (omega arith, good) };
  post = λ req. record { at = λ w good. (omega arith, good) };
  hash = λ r. record { at = λ w good. (omega arith, good) };
  audit = λ r. record { at = λ w good. (omega arith, good) };
  capture = λ input. record { at = λ w good. (omega arith, good) };
  ledger = λ ordinal. record {
    begin_new = λ hash s t good e.
        let same = ap (λ x. x.1.effects) e in let more = ap (λ x. x.1.claims) e in omega arith;
    begin_other = λ hash. record { at = λ w good. (omega arith, good) };
    complete = λ r. record { at = λ w good. (omega arith, good) };
    fail = record { at = λ w good. (omega arith, good) };
    mark_indeterminate = record { at = λ w good. (omega arith, good) };
  };
}

abbrev start : Counts
start = record { effects = 0; claims = 0 }

effects-le-claims_example :
    effects_of (after_call deps tools client mutation (call_update args) (host_of start)).outside
      + 0
    ≤ 0
      + claims_of (after_call deps tools client mutation (call_update args) (host_of start)).outside
effects-le-claims_example =
    effects-le-claims deps tools client mutation AnyCounts effects_of claims_of laws
      (call_update args) tt (host_of start) tt
