-- ===== src/Lib.antt =====
-- Pico All: the firmware of a USB security key, verified from its C sources.
--
-- The program is an SDK (pico-keys-sdk) and four applications over it. A command APDU comes in over
-- USB and is parsed and chained (apdu.c); data objects are tag-length-value (tlv.c). Objects are
-- stored over the file layer, in one file (fs/object_store.c) or in two slots that make a write atomic
-- (fs/object_store_txn.c); containers of objects have manifests and sealed records
-- (fs/object_container.c), and access policies guard them (fs/object_policy.c). The configuration of
-- the device is kept as tag-length-value (fs/phy.c). The FIDO application keeps a journal of its
-- events, chained by a hash (audit.c). Its messages come in frames of CTAPHID
-- (usb/hid/hid.c).
--
-- Base            shared names, lists, places in lists, tables of small ranges
-- Bytes           picokeys.h and byte_array.h: return codes, byte arrays, big-endian words
-- Results         lemmas on return codes and on the words of Bytes
-- Policy          pico-keys-sdk/src/fs/object_policy.c
-- Tlv             pico-keys-sdk/src/tlv.c
-- Apdu            pico-keys-sdk/src/apdu.c: Parse (the lengths of a command), Chain (process_apdu),
--                 Status (set_res_sw) and Response (apdu_next and GET RESPONSE)
-- Store           pico-keys-sdk/src/fs: Files is what the stores use of file.c and flash.c, as an
--                 interface of operations and laws (Files/Memory is one in memory); Txn is
--                 object_store_txn.c: Layout (the bytes), Recover (reading), Write (put and
--                 delete), Handles (reading through a handle), Open (opening), over Tokens (the free
--                 tokens of handles); Object is object_store.c without its handles
-- Container       pico-keys-sdk/src/fs/object_container.c: Extensions, Descriptor, Manifest (building
--                 and parsing) and Record (headers, bound data, sealing and unsealing),
--                 RecordId (the counter of record identifiers)
-- Phy             pico-keys-sdk/src/fs/phy.c: the device configuration, its defaults and serialization,
--                 Parse, its parser, and Saved, its file
-- Audit           src/fido/audit.c: Journal (the record and the chain), Append (entries and runs) and
--                 Card (the files and the calls), with Checkpoint; a journal stands for a log (Log)
-- Hid             pico-keys-sdk/src/usb/hid/hid.c: Frame (frames and state), Receive (messages put
--                 together from frames), Process (their commands) and Transmit (responses cut into
--                 frames)
-- Button          pico-keys-sdk/src/button.c: the wait for the user (Wait, Press) and the task (Task)
--
-- A pointer into a buffer is an offset from its start, and none is the null pointer. Numbers are
-- natural numbers; where the source's word wraps, the model writes the wrap out. The loop of
-- file_object_txn_auth_record runs in as many rounds as the payload has bytes; each takes one at
-- least. The loop for a free token of a handle has a round for the token 0, one for each entry and
-- one more, and that of the configuration's parser one more than the data has bytes. The message
-- authentication code is the caller's, with the laws of the record Authenticator. A call that
-- handles a frame is taken to see one time, and the loop for a free channel has two rounds: the number
-- behind a reserved one is 1.
--
-- Not modelled: the handles of object_store.c, the files of a container, the file table of file.c,
-- the flash allocation, and the rest of the applications. The interface of Files says nothing of
-- what a deletion does to the files of the tables, EF_META among them, and takes it that the length of
-- a deleted file can be programmed. A PING that is longer than the buffer of its answer ends in the
-- output `overran`, behind which nothing is said. Of USB, the frames and commands of CTAPHID
-- are there; the rest, hardware and calls of mbedTLS are left out.
pub mod Base
pub mod Bytes
pub mod Results
pub mod Policy
pub mod Tlv
pub mod Apdu
pub mod Store
pub mod Button
pub mod Phy
pub mod Audit
pub mod Hid
pub mod Container
