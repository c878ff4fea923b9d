-- ===== src/Lib.antt =====
-- Nodescale admits devices to a private network: it issues invitations, walks a join session to a
-- provider credential, binds the device to an authenticated Keryx peer, and projects the device as
-- a desired enrollment to Hermes Fleet. This library models its domain crate, the admission
-- control of its redemption endpoint, the durable store of Fleet projections, and the driver that
-- brings Fleet to them.
--
-- Which file models what, with paths from the repository's root:
--   Domain (crates/nodescale-domain/src/lib.rs)
--     Domain/Identifier: `uuid_id!`, `bounded_string_id!`, the other bounded strings, audit actors,
--       names and join hints. A string is the list of its Unicode scalar values (Text), whose UTF-8
--       bytes are computed where the code counts or tests bytes.
--     Domain/Generation: `Generation` and `DeviceGenerations`; a u64 is a number, and `checked_add`
--       fails above 2 ^ 64 - 1.
--     Domain/Lifecycle: the enums of `transition_enum!` and `KeryxBindingState`, one file for each.
--       Lifecycle/Runs runs sequences of attempted transitions, in which a refused attempt leaves
--       the state as it was.
--     Domain/Roles: `Roles` and `Operation`; a `BTreeSet` is a list in the order of the enum
--       (OrderedSet).
--     Domain/Records: `Network`, `Device`, `Revocation` and their constructors.
--     Domain/Token: `InvitationToken`, `OwnerTrustRootToken`, `AdoptionChallengeToken`: a prefix and
--     base64 text of an ID and a secret, over the base64 and uuid crates as parameters.
--     Domain/Binding: `KeryxBindingIdentity`. The `expect` of its validation is an outcome of its
--       own (`panicked`).
--     Domain/Verifier, Domain/Invitation, Domain/JoinSession: the stored verifier's profile,
--       `Invitation` and `JoinSession` with `transition` and `advance_n4`.
--     Domain/Intents: the N6 challenge, delivery, bind request, authorization, and the rotation and
--       revocation intents, each as a constructor and as `validate_at`.
--   Domain/Fleet (crates/nodescale-domain/src/n7.rs): generated grants and their JSON form, the
--     provenance taken from an active binding, the projection's content and digest, its
--     construction, and its changes `disable` and `remove`.
--   Admission (crates/nodescale-redemption-ingress/src/lib.rs): `AdmissionLimits`, `Bucket` and
--     `InMemoryAdmissionController`. Instants and durations are nanoseconds; the counters are u32
--     and saturate or wrap as the code's do.
--
--   State (crates/nodescale-state/src/n7.rs, with `transactional` of crates/nodescale-state/src/lib.rs
--     and the constraints of crates/nodescale-state/migrations/0007_fleet_projection.sql)
--     State/Submission: the submission and the inspection, made from canonical bytes.
--     State/Tables, State/Rows, State/Device: the tables as lists, the newest row first, and the SQL
--       queries and updates as functions on them. A u64 that is bound as a SQLite integer is
--       refused from 2 ^ 63 on, times are milliseconds since 1970, and the random identifiers of
--       projections and attempts are arguments. Rows keep identifiers as values, since their text
--       form is one to one; the random keys of inspections and audit rows are left out. The rows
--       carry the constraints that may refuse what the code writes: primary keys, the order of
--       times, that an inspection belongs to the operation of the current attempt, and that a
--       projection is settled behind an inspection that shows it.
--     State/Reserve, State/Attempt, State/Recover: `reserve_n7_projection`,
--       `record_n7_projection_dispatch_attempt` and `recover_n7_projection_from_inspection`.
--     State/Effects: what each of the three wrote. State/History: any sequence of them, among
--       arbitrary changes of the tables of bindings and devices. State/Replay, State/Refusal: a
--       reservation asked again, and an inspection by an operation that made no attempt.
--   FleetClient and Json (crates/nodescale-fleet-client/src/lib.rs): the projection document, its
--     canonical JSON and content hash, and Fleet's answers. A JSON object is kept in the order of
--     its keys, as serde_json's map does.
--   Projection (crates/nodescale-projection/src/lib.rs): the document and the expected body of a
--     desired projection, and `reconcile_one` as a run in a world of the store, the number of its
--     writes and the requests sent. Fleet, the clock and the random identifiers may answer each
--     request and each write in any way.
--
-- How the parts meet: a consistent active binding (Domain/Binding) is the only source of the
-- provenance of a projection (Domain/Fleet/Provenance); an intent carries an authorization that
-- names a binding, its generation and its revision (Domain/Intents); generations advance by
-- `validate_advance` in Domain/Generation, in
-- Domain/Fleet/Projection and in State/Device; the driver makes its submission from the desired
-- projection of Domain/Fleet, and calls the three operations of State.
--
-- Parameters: the uuid crate (`UuidCrate`, of which it is assumed that a displayed UUID is parsed
-- back), the PHC string parser (`PhcParser`), SHA-256 as a function on bytes, serde_json's
-- `from_slice` and `to_vec` (`SerdeJson`, of which nothing is assumed), Fleet, the clock and the random
-- identifiers (`Surroundings`, of which nothing is assumed), and the order in which a hash map is
-- iterated. No function needs fuel but the decimal notation of a u64, which has at
-- most 20 digits.
--
-- Not modelled: the other tables of the SQLite store; the provider and Keryx clients, Fleet's socket,
-- the thread and the queue of the driver, the HTTP and TLS server, Argon2 and the wiping of secrets,
-- and the command line tools, which are effects around external services; the texts of error
-- messages, of which only the kind and a name are kept; and the records of trust decisions.
pub mod Admission
pub mod Domain
pub mod FleetClient
pub mod Json
pub mod OrderedSet
pub mod Prelude
pub mod Projection
pub mod State
pub mod Text
