-- ===== src/Controller/Footprint.antt =====
-- What each reconciler writes: its run keeps every predicate on histories that its reads, its
-- requests and these writes keep.
pub mod User
pub mod UserGroup
pub mod OidcClient
pub mod Instance
pub mod HttpRoute
