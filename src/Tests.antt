-- ===== src/Tests.antt =====
-- Concrete inputs: the theorems at them, and runs of the definitions.
mod ManualTime
mod Memory
mod Model
mod Lock
mod Locality
mod Service
mod Desktop
mod Crash
mod Command
mod Run
mod Search
mod Programs
mod Observing
mod Places
mod Zones
