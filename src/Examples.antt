-- ===== src/Examples.antt =====
-- Runs of the modelled code on concrete inputs.
mod Aws
mod Seals
mod Callers
mod Serving
mod Overlap
mod Scanning
mod Recons
mod Relays
mod Scheduling
mod Learning
mod Transcripts
