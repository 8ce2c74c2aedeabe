-- ===== src/Hid.antt =====
-- CTAPHID, pico-keys-sdk/src/usb/hid/hid.c and ctap_hid.h: the frames, how messages are put together
-- from them and dispatched, and how responses are cut into frames.
pub mod Frame
pub mod Receive
pub mod Process
pub mod Transmit
pub mod Dispatch
pub mod Assembly
pub mod Busy
pub mod Channels
mod Tests
