-- ===== src/Tests.antt =====
-- Runs of the components on concrete inputs.
mod Tables
mod Chains
mod Memory
mod Frames
mod Snapshots
mod Trees
mod Levels
mod Sets
