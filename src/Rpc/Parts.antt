-- ===== src/Rpc/Parts.antt =====
-- The parts of which the methods of `ServiceNowRPC` are made: the host that they run on, the client, the
-- meter, and the signals of `coded`.
use snow_mcp.Common.{
  ℕ, suc, zero, ◌+◌, Bool, true, false, ◌||◌, Option, none, some, List, [], ◌∷◌, ltb, leb, str_eq,
  if◌then◌else◌, String,
}
use snow_mcp.Errors.{
  capability_denied, budget_exceeded, reauth_required, Result, ok, throw, Thrown, tool_error,
  other_error, budget_error, reauth_error, RunDimension,
}
use snow_mcp.Exec.{Exec}
use snow_mcp.Exec.Steps.{check}
use snow_mcp.Mode.{Mode}
use snow_mcp.Text.{Text, text, includes}
use snow_mcp.Validate.{Unknown, table_page_cap}
use snow_mcp.Policy.{ActorPolicy}
use snow_mcp.RunBudget.{RunBudget, Metered}
use snow_mcp.SnErrors.{ServiceNowErrorBody, throw_mapped}

pub data Capability : Type 0 where
  read_tables write_tables run_server_script : Capability

-- `MODE_CAPABILITIES[mode].includes(cap)`; there is no such list for a text that is no mode.
unfoldable pub has_capability : Mode → Capability → Option Bool
has_capability mode read_tables =
    if str_eq mode "read_only" || str_eq mode "write" || str_eq mode "admin_script"
    then some true
    else none
has_capability mode write_tables =
    if str_eq mode "read_only"
    then some false
    else if str_eq mode "write" || str_eq mode "admin_script"
    then some true
    else none
has_capability mode run_server_script =
    if str_eq mode "read_only" || str_eq mode "write"
    then some false
    else if str_eq mode "admin_script"
    then some true
    else none

abbrev pub require_some : Option Bool → Result (Unit {0})
require_some none = throw other_error
require_some (some true) = ok tt
require_some (some false) = throw (tool_error capability_denied)

unfoldable pub require_capability : Mode → Capability → Result (Unit {0})
unfolding has_capability
require_capability mode cap = require_some (has_capability mode cap)

-- A row: its columns, with their values.
abbrev pub Row : Type 0 → Type 0
Row V = List (Text × V)

pub data Endpoint : Type 0 where
  table_list : Text → Endpoint
  table_record : Text → (sys_id : Text) → Endpoint
  table_stats : Text → Endpoint

pub record SnQuery : Type 0 where
  pub limit : Option ℕ
  pub exclude_reference_link : Bool
  pub count : Bool
  pub query : Option Text
  pub fields : Option (List Text)
  pub group_by : Option (List Text)

pub record SnRequest : Type 0 where
  pub endpoint : Endpoint
  pub params : SnQuery

-- `{ result: … }` or an object without it, or a body that is no object.
pub data Body (A : Type 0) : Type 0 where
  result_body : Option A → Body A
  no_object : Body A

pub record SnResponse (A : Type 0) : Type 0 where
  pub status : ℕ
  pub error_body : ServiceNowErrorBody
  pub body : Body A

pub record SnHttpClient (W V : Type 0) : Type 0 where
  pub get_rows : SnRequest → Exec W (SnResponse (List (Row V)))
  pub get_row : SnRequest → Exec W (SnResponse (Row V))
  pub get_stats : SnRequest → Exec W (SnResponse V)

-- `RunContext` of sn/mutation-guard.ts.
pub record RunContext : Type 0 where
  pub request_id : String
  pub reason : Option Text
  pub run_key : Option Text
  pub approval_token : Option Text

-- `hostSignals`: set once, never cleared.
pub record HostSignals : Type 0 where
  pub budget_signal : Option (Option RunDimension)
  pub reauth_signal : Option (Option String)

-- The state of a `ServiceNowRPC`; its ordinal counts the mutating calls that reach the guard.
pub record Host (W : Type 0) : Type 0 where
  pub budget : RunBudget
  pub signals : HostSignals
  pub ordinal : ℕ
  pub outside : W

pub record RpcDeps (W V : Type 0) : Type 0 where
  pub http : SnHttpClient W V
  pub instance_host : Text
  pub effective_mode : Mode
  pub actor_policy : ActorPolicy
  pub query_bytes : SnQuery → ℕ
  pub rows_bytes : List (Row V) → ℕ
  pub row_bytes : Row V → ℕ
  pub stats_bytes : Option V → ℕ

-- The parts of a method: a meter, and a call of the client.
abbrev metered_in : {W : Type 0} → Metered → Host W → Result (Unit {0}) × Host W
metered_in (r, b) h = (r, record h { budget = b })

unfoldable pub metered : {W : Type 0} → (RunBudget → Metered) → Exec (Host W) (Unit {0})
metered m h = metered_in (m h.budget) h

abbrev sent_in : {W A : Type 0} → Result A × W → Host W → Result A × Host W
sent_in (r, w) h = (r, record h { outside = w })

unfoldable pub send : {W A : Type 0} → Exec W A → Exec (Host W) A
send m h = sent_in (m h.outside) h

-- `(res.json as { result?: … }).result`.
abbrev pub result_of : {A : Type 0} → Body A → Result (Option A)
result_of (result_body r) = ok r
result_of no_object = throw other_error

abbrev pub or_empty : {A : Type 0} → Option (List A) → List A
or_empty none = []
or_empty (some xs) = xs

abbrev pub first_of_list : {A : Type 0} → List A → Option A
first_of_list [] = none
first_of_list (x ∷ xs) = some x

-- `raw.slice(0, n)`.
unfoldable pub take : {A : Type 0} → ℕ → List A → List A
take zero xs = []
take (suc n) [] = []
take (suc n) (x ∷ xs) = x ∷ take n xs

-- `Array.from(new Set(…))`.
unfoldable pub unique_from : List Text → List Text → List Text
unfolding includes
unique_from seen [] = []
unique_from seen (f ∷ fs) = elim (includes seen f) [
  | true ↦ unique_from seen fs
  | false ↦ f ∷ unique_from (f ∷ seen) fs
]

abbrev pub with_sys_id : Option (List Text) → Option (List Text)
with_sys_id none = none
with_sys_id (some fs) = some (unique_from [] (text "sys_id" ∷ fs))

-- `if (query) q.sysparm_query = query`.
abbrev pub if_not_empty : Text → Option Text
if_not_empty [] = none
if_not_empty (c ∷ q) = some (c ∷ q)

abbrev pub is_some {ℓ} : {A : Type ℓ} → Option A → Bool
is_some none = false
is_some (some a) = true

abbrev pub page_limit : Option ℕ → ℕ
page_limit none = table_page_cap
page_limit (some n) = n

abbrev pub request_limit : ℕ → ℕ
request_limit limit = if ltb limit table_page_cap then limit + 1 else table_page_cap

abbrev pub is_partial : ℕ → ℕ → Bool
is_partial limit found =
    if ltb limit table_page_cap then ltb limit found else leb table_page_cap found

pub record TableQueryArgs (J : Type 0) : Type 0 where
  pub table : Unknown J
  pub query : Unknown J
  pub fields : Unknown J
  pub limit : Unknown J

pub record TableRowsResult (V : Type 0) : Type 0 where
  pub rows : List (Row V)
  pub partial : Bool

pub record TableGetArgs (J : Type 0) : Type 0 where
  pub table : Unknown J
  pub sys_id : Unknown J
  pub fields : Unknown J

pub record AggregateArgs (J : Type 0) : Type 0 where
  pub table : Unknown J
  pub query : Unknown J
  pub group_by : Unknown J

-- The parameters of a query of the list endpoint, and of the record endpoint.
abbrev pub list_params : ℕ → Option Text → Option (List Text) → SnQuery
list_params limit query fields = record {
  limit = some limit;
  exclude_reference_link = true;
  count = false;
  query = query;
  fields = fields;
  group_by = none;
}

abbrev pub record_params : Option (List Text) → SnQuery
record_params fields = record {
  limit = none;
  exclude_reference_link = true;
  count = false;
  query = none;
  fields = fields;
  group_by = none;
}

abbrev pub stats_params : Option Text → Option (List Text) → SnQuery
stats_params query group_by = record {
  limit = none;
  exclude_reference_link = false;
  count = true;
  query = query;
  fields = none;
  group_by = group_by;
}

unfoldable pub mapped : {W A : Type 0} → SnResponse A → Exec (Host W) (Unit {0})
mapped res = check (throw_mapped res.status res.error_body)

-- `??=`.
abbrev pub or_set : {A : Type 0} → Option A → A → Option A
or_set none a = some a
or_set (some b) a = some b

-- The signals after an error: only those of the budget and of authorization are kept.
unfoldable pub raise_signal : Thrown → HostSignals → HostSignals
raise_signal (budget_error d) g = record g { budget_signal = or_set g.budget_signal (some d) }
raise_signal (tool_error budget_exceeded) g = record g {
  budget_signal = or_set g.budget_signal none;
}
raise_signal (reauth_error url) g = record g { reauth_signal = or_set g.reauth_signal url }
raise_signal (tool_error reauth_required) g = record g {
  reauth_signal = or_set g.reauth_signal none;
}
raise_signal e g = g

-- `coded`: what is thrown again is a plain `Error`, which carries the code in its message.
abbrev coded_result : {W A : Type 0} → Result A × Host W → Result A × Host W
coded_result (ok a, h) = (ok a, h)
coded_result (throw e, h) = (throw other_error, record h { signals = raise_signal e h.signals })

unfoldable pub coded : {W A : Type 0} → Exec (Host W) A → Exec (Host W) A
unfolding raise_signal
coded m h = coded_result (m h)
