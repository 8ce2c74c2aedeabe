-- ===== src/Container.antt =====
-- pico-keys-sdk/src/fs/object_container.c: the manifest of a container of objects, and the framing
-- and sealing of an object's record. A child has each part: Extensions, Descriptor, Manifest, Record,
-- and RecordId, the counter of record identifiers.
pub mod Extensions
pub mod Descriptor
pub mod Manifest
pub mod Record
pub mod RecordId
mod Tests
