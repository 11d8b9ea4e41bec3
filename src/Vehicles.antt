-- ===== src/Vehicles.antt =====
-- The life of a vehicle from its mint to its scrapping, as the indexer records it.
pub mod Events
pub mod Registration
pub mod Passports
pub mod Follows
pub mod Handlers
pub mod Status
pub mod Ownerships
pub mod Scrapping
