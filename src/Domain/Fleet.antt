-- ===== src/Domain/Fleet.antt =====
-- crates/nodescale-domain/src/n7.rs: the desired Fleet projection, its grants, its provenance and
-- its digest.
pub mod Grants
pub mod Provenance
pub mod Content
pub mod Projection
