-- ===== src/Store/Txn.antt =====
-- pico-keys-sdk/src/fs/object_store_txn.c: an object in two slots. Each slot has a record file with
-- the data and a commit file that makes it valid, both under a message authentication code. A write
-- goes to the slot that is not current. The authenticator is the caller's: a parameter.
pub mod Layout
pub mod Recover
pub mod Write
pub mod Codes
pub mod Record
pub mod Commit
pub mod Steps
pub mod Put
pub mod Local
pub mod Apart
pub mod Slot
pub mod Atomic
pub mod Handles
pub mod Stale
pub mod Open
pub mod Opened
