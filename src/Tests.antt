-- ===== src/Tests.antt =====
-- Concrete inputs: the theorems of the other modules applied where their hypotheses hold.
mod Sample
mod Journal
mod Deployment
mod Stored
mod State
mod Store
mod ControllerJournal
mod Wire
mod Target
mod Transfer
