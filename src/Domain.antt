-- ===== src/Domain.antt =====
-- crates/nodescale-domain: identifiers, generations, lifecycles and the records built from them.
pub mod Error
pub mod Identifier
pub mod Generation
pub mod Lifecycle
pub mod Roles
pub mod Binding
pub mod Verifier
pub mod Invitation
pub mod JoinSession
pub mod Intents
pub mod Records
pub mod Token
pub mod Fleet
pub mod Samples
