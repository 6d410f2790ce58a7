-- ===== src/Tests.antt =====
-- Test data, runs at concrete inputs, and an instance of each theorem that has hypotheses.
mod MemoryFile
mod Frame
mod MemorySpiffs
mod Journal
mod Index
mod Disk
mod State
mod Json
mod Retry
mod Recovery
mod Wifi
mod Concurrent
mod Response
mod Kiosk
mod Outage
mod MemoryFlash
mod Bundle
mod Font
mod Setup
mod Scanner
mod Bus
