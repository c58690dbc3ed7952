-- ===== src/Tests.antt =====
-- Runs of the model on concrete inputs, and each theorem at an input that meets its hypotheses.
mod Fixtures
mod Wire
mod Disk
mod Serial
mod Screen
mod Socket
mod Line
mod Guest
mod Attach
mod Awaits
mod Queues
mod Start
mod Port
mod Listeners
mod Command
