-- ===== src/Tests.antt =====
-- The theorems at concrete inputs.
mod Wire
mod Queue
mod Channel
mod Ingress
mod Egress
mod Quota
mod Clients
mod Events
mod Destinations
mod Scheduler
mod Main
mod Addressing
mod Config
