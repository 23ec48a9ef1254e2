-- ===== src/Examples.antt =====
-- Runs of the theorems at concrete values: the hypotheses hold there.
mod Samples
mod Peers
mod Messages
mod Servers
mod Runs
mod Tracks
mod Rooms
mod Candidates
