-- ===== src/Tests.antt =====
-- Runs of the model on concrete inputs, and the theorems at inputs where their conditions hold.
mod Runs
mod Witnesses
mod Servers
mod Desks
mod ServerRuns
mod Answers
mod Processes
mod Traffics
mod Models
mod Payloads
mod Networks
mod Negatives
