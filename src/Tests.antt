-- ===== src/Tests.antt =====
-- Runs of the model on concrete inputs.
pub mod Data
mod Runs
mod Sends
mod Reports
mod Reads
mod Rules
mod Queued
mod Migration
mod Durability
