-- ===== src/Fetch.antt =====
-- The fetch package: chunk slots, the workers that fetch chunks, and the fetcher that writes them.
pub mod Slots
pub mod Store
pub mod Fetcher
pub mod Worker
pub mod Examples
