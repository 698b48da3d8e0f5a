-- ===== src/Examples.antt =====
-- Witnesses of the theorems at concrete inputs, and tests of the definitions.
mod Wire
mod Admitted
mod Counted
mod Demo
mod Sessions
mod Journeys
mod Topics
mod Runs
mod Network
mod Closing
mod Stopping
mod Lasting
