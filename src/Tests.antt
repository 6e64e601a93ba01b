-- ===== src/Tests.antt =====
-- Runs of the code with small libraries.
mod Libraries
mod Setting
mod Phrase
mod Keystores
mod Refusals
mod Openings
mod Signatures
mod Keys
mod Paths
mod Descents
mod Wallets
mod Sessions
