-- ===== src/Store.antt =====
-- Stored objects of pico-keys-sdk/src/fs: the operations of the file layer that they are built on
-- (Files), the objects of object_store.c (Object), and the two-slot transactional objects of
-- object_store_txn.c (Txn).
pub mod Files
pub mod Txn
pub mod Tokens
pub mod Object
pub mod Toy
mod Tests
