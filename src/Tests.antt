-- ===== src/Tests.antt =====
-- Runs of the model, and its theorems at concrete inputs.
mod Codec
mod Oids
mod Tree
mod Views
mod Agents
mod Traps
mod Messages
mod Next
mod Requests
