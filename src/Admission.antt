-- ===== src/Admission.antt =====
-- crates/nodescale-redemption-ingress/src/lib.rs: admission control of the redemption endpoint, a
-- token bucket for each source behind one global bucket.
pub mod Limits
pub mod Bucket
pub mod Controller
