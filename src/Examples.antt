-- ===== src/Examples.antt =====
-- Concrete runs of the program: a store with a few jobs, an agent that answers, an upgrade, a broker, a
-- batch, a configuration, and tasks on a machine and on its host.
mod Edits
mod Relocations
mod Templates
mod Fixtures
mod Queue
mod Jobs
mod Workers
mod Messages
mod Upgrades
mod Race
mod Recovery
mod Broker
mod Tables
mod Batches
mod Settings
mod Services
