-- ===== src/Tests.antt =====
-- Concrete runs of the modelled code, and the theorems at concrete inputs.
mod Dictionaries
mod Arrays
mod Plexers
mod Addresses
mod Records
mod Numbers
mod Transfers
mod Schedules
mod Browsers
mod Sessions
mod Objects
mod Agreements
mod Exchanges
