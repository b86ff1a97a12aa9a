-- ===== src/Tests.antt =====
-- Runs of the definitions on concrete inputs, and each theorem with hypotheses at such an input.
mod Sample
mod Reducer
mod Claude
mod Memory
mod Monitor
mod Connection
mod Client
