-- ===== src/Controller/Cost.antt =====
-- How many requests and writes a run of each reconciler makes at most, whatever is answered.
pub mod Steps
pub mod User
pub mod UserGroup
pub mod OidcClient
pub mod Instance
pub mod HttpRoute
