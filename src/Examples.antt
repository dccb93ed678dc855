-- ===== src/Examples.antt =====
-- Runs of the model on concrete inputs, and the theorems at inputs that meet their hypotheses.
pub mod Inputs
pub mod Plans
pub mod Sets
pub mod Specs
pub mod Claims
pub mod Naming
pub mod Migrations
pub mod Rollouts
pub mod Policies
pub mod Reindex
pub mod Backups
pub mod Objects
pub mod Syncs
pub mod Services
