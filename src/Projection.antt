-- ===== src/Projection.antt =====
-- crates/nodescale-projection/src/lib.rs: the driver that brings Fleet to a desired projection. The
-- children make the document and the body, run the driver against the store and Fleet, and prove
-- what it does in which order.
pub mod Document
pub mod Run
pub mod Reconcile
pub mod Safety
pub mod Budget
mod Examples
