-- ===== src/Tests.antt =====
-- The interfaces at concrete values, and each result at an input that meets its hypotheses.
mod Transport
mod Messages
mod Observers
mod Threads
mod Loop
mod Demo
mod Path
mod Signals
mod Growth
mod Sockets
mod Process
mod Filters
