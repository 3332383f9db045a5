-- ===== src/Ota.antt =====
-- internal/ota/rollout.go: staged rollouts of firmware. `Batches` has how devices are put into batches,
-- `Rollout` how a rollout is created and cancelled, `Dispatch` the worker that sends the batches and
-- the reports of the devices.
pub mod Batches
pub mod Rollout
pub mod Dispatch
pub mod Reports
pub mod Listing
pub mod Sizes
pub mod Stall
pub mod Cancel
pub mod Order
pub mod Single
pub mod Tests
