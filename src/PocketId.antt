-- ===== src/PocketId.antt =====
-- The client of the PocketID API, internal/pocketid: its types in Types, its requests in Request,
-- and the calls, which act on the world, in Client.
pub mod Types
pub mod Request
pub mod Client
