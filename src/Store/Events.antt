-- ===== src/Store/Events.antt =====
-- store/events/: the issue events, the decider that emits and folds them, and the read model.
pub mod EventTypes
pub mod Streams
pub mod Decider
pub mod Projection
