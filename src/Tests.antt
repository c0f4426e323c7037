-- ===== src/Tests.antt =====
-- Tests of the definitions on concrete inputs, and each main theorem at an input that meets its
-- hypotheses.
mod Modes
mod Budgets
mod Ledgers
mod Guards
mod Limits
mod Loads
mod Policies
mod Correlations
mod Reads
mod Runs
mod Writes
mod Claims
mod Replays
