-- ===== src/Controller.antt =====
-- The controller: `syncHandlerStandardMode`, `syncHandler`, `processNextWorkItem` and `IsHealthy` of
-- pkg/vmo/controller.go. A sync calls its stages through an interface, which `Operator` fills with
-- those that are modelled. What it starts in goroutines is run where their channels are read.
pub mod Stages
pub mod Sync
pub mod Hindered
pub mod Kept
pub mod Raised
pub mod Dirty
pub mod Operator
pub mod Version
