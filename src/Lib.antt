-- ===== src/Lib.antt =====
-- Verification of the safety core of snow-mcp, the MCP server that lets an agent work on a ServiceNow
-- instance from a Cloudflare Worker. Paths are from packages/mcp-server/src/ unless they name another
-- package.
--
-- A request is admitted, and its tool call is resolved to a mode, reserves from the daily budget and
-- runs a snippet. The snippet reaches the instance only through the methods of an RPC object, which
-- check the actor's policy, validate, and count; each mutation goes through the mutation guard, which
-- claims the idempotency ledger, checks, snapshots and audits before the one effect. The parts:
--
-- EffectiveMode and Mode model authz/effective-mode.ts and the modes of packages/shared/src/types.ts:
-- `resolveEffectiveMode` is resolve_effective_mode and `modeRisk` is mode_risk. Modes are strings,
-- since the host reads them from untrusted input; Risk has the order of the risks with +Infinity.
--
-- Budget models do/budget.ts. The storage is a function from keys to optional numbers
-- (Budget.Storage); `reserve`, `increment` and `reconcile` are functions from the counters to
-- counters. Amounts are integers, and counters natural numbers, as the code clamps every one at 0. A
-- day's object is one state.
--
-- Ledger models do/mutation-ledger.ts: LedgerState is the record and the alarm of one object, and
-- `begin`, `complete`, `fail`, `markIndeterminate`, `status` and `alarm` are functions of it and of
-- the times that they read. The stored record may lack fields, as the code that normalizes it allows.
-- `replaySafeResult` is the parameter ReplayFormat, which ReplayPayload, the model of
-- sn/replay-payload.ts, fills. Ledger.Spec is the abstract slot, and Ledger.Refinement the relation.
--
-- Guard models sn/mutation-guard.ts, with the rows of observability/audit.ts in Guard.Audit.
-- `guardMutation` is guard_mutation, in the state monad with thrown errors of Exec; the state is that
-- of everything that the callbacks act on. Guard.Balance counts effects and claims for any callbacks,
-- Guard.Retries puts the model of the ledger object behind the guard, over calls that may be lost, and
-- Guard.Script, Guard.Layers and Guard.Order say what is logged before and after an effect.
-- Guard.Cases lists the ends of a call, and Guard.Gated and Guard.Preflight say what holds when the
-- effect runs. Ledger.Runs relates runs of the object to the slot.
--
-- Admission, Consent and AuthCorrelation model do/mcp-admission.ts, do/consent-rate.ts and
-- do/auth-correlation.ts: the operations of each object are functions of its state and of the time. An
-- object of JavaScript that is used as a map is the list of its entries, in their order.
--
-- Text has the strings that the host takes apart, as lists of UTF-16 units; Validate models
-- sn/validate.ts, with an Unknown for an untrusted argument, and Policy the checks of
-- authz/actor-policy.ts (`assertActorPolicy` is assert_actor_policy, and so on). Approval models
-- authz/approval.ts with the comparison of auth/encoding.ts, RunBudget the meters of sn/run-budget.ts
-- and sn/query-budget.ts, SnErrors the codes of sn/errors.ts, and Serialize the caps of
-- sandbox/serialize.ts on bytes of UTF-8.
--
-- Policy.Loader models how authz/actor-policy.ts makes policies of the settings: `loadActorPolicy` and
-- `loadNamedActorPolicies` are load_actor_policy and load_named_actor_policies. `Number` and
-- `JSON.parse` are parameters. Policy.Entries, Policy.Loaded and Policy.Named say what the parsers and
-- the loader return.
--
-- Rpc models the reading methods of sn/rpc.ts: `tableQuery`, `tableGet` and `aggregate` are
-- table_query, table_get and aggregate, over a client that is a parameter; `coded` is coded. RunCode
-- models tools/run_code.ts: `runCode` is run_code, over the transpiler, the executor and the calls of
-- the daily budget. Both are written with the steps of Exec.Steps, and Exec.Rules has the rules by
-- which what they return, send and keep is proved, and Exec.Leaves those for what holds at each end;
-- Rpc.Permitted and RunCode.Reserves put a log behind the parameters.
--
-- Mutation models the mutating methods of sn/rpc.ts: `tableUpdate` and `runServerScript` are
-- table_update and run_script, in Mutation.Update and Mutation.Script, each with its preflight,
-- snapshot and effect as the guard's callbacks. The client, JSON, the hashes, the signature and the
-- text of a value are parameters. Mutation.Trace puts a log behind the client and Mutation.Signing
-- behind the signing, Mutation.CurrentRow is about the row of a snapshot, Mutation.Permitted says
-- which requests may stand in it, and Mutation.Measure counts effects and claims for any parameters.
--
-- The promise chains that serialize each object's operations are modelled by running one operation
-- after another. There is no fuel: every loop of the code is a structural recursion. Hashes,
-- redaction, JSON and the clock are parameters. Not modelled are the fingerprint and the hash of a
-- policy, the checks of production settings, the schema cache and the snapshot and token stores,
-- discovery, the HTTP client, OAuth and OIDC, the sandbox and the tool handlers: they are calls of the
-- web platform, of ServiceNow or of the SDK for the most part.
mod Common
pub mod Errors
pub mod RunBudget
pub mod Text
pub mod SnErrors
pub mod Validate
pub mod Policy
pub mod Risk
pub mod Mode
pub mod EffectiveMode
pub mod Budget
pub mod Ledger
pub mod Admission
pub mod Consent
pub mod AuthCorrelation
pub mod Exec
pub mod Serialize
pub mod ReplayPayload
pub mod Approval
pub mod Rpc
pub mod RunCode
pub mod Guard
pub mod Mutation
mod Tests
