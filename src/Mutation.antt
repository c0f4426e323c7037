-- ===== src/Mutation.antt =====
-- The mutating methods of `ServiceNowRPC`, packages/mcp-server/src/sn/rpc.ts: `tableUpdate` and
-- `runServerScript`, which run through the guard of sn/mutation-guard.ts.
-- A call is a state of its own, around the host that it runs on: the host, and the variables that its
-- callbacks share.
pub mod Body
pub mod Parts
pub mod Update
pub mod Script
pub mod Trace
pub mod Permitted
pub mod Steps
pub mod Rules
pub mod Lookup
pub mod CurrentRow
pub mod UpdateSent
pub mod Signing
pub mod ScriptSent
pub mod Sent
pub mod Measure
pub mod WriteLaws
pub mod UpdateClaims
pub mod ScriptClaims
pub mod Claims
