-- ===== src/Tests.antt =====
-- Runs of the modelled code at concrete inputs, a module for each part.
mod Inboxes
mod Races
mod Threads
mod Servers
mod Queues
mod Workers
mod Timers
mod Requests
mod Connections
mod Awaiters
