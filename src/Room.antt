-- ===== src/Room.antt =====
-- room.hpp: the room. Its state holds the store of sessions, by handle, since the set of
-- participants and the handlers share them through pointers; the set is the list of handles in
-- the order of their identifiers. A delivery posts a task, kept in `posted`; a signal calls the
-- slots connected to it, kept in `calls`.
--
-- Operations that may fault or throw return an `Outcome`; what the code gets from outside (the
-- outputs of the random engine, the socket's answer to `set_option`, the text of the peer's
-- address, uninitialised memory) is an `Env`.
pub mod OrderedSet
pub mod State
pub mod Deliver
pub mod Members
pub mod Queries
pub mod Invariant
pub mod Joining
pub mod Ordered
pub mod Leaving
pub mod Broadcast
pub mod Announcing
pub mod Counting
pub mod Directory
pub mod Returning
pub mod Keeping
pub mod Refinement
