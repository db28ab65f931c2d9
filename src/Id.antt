-- ===== src/Id.antt =====
-- utils/src/collections/id: the two allocators of identifiers. An `Id` is its number.
pub mod Tracker
pub mod Hander
