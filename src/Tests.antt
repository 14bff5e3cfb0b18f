-- ===== src/Tests.antt =====
-- A concrete environment, and the theorems at inputs that meet their hypotheses.
mod Codec
mod Bank
mod Town
mod Runs
mod Transfers
mod Locals
mod Administration
mod Freezing
mod Texts
mod Migrations
mod Limited
mod KeyValues
mod Nfts
mod Parsing
mod Functions
