-- ===== src/Apdu.antt =====
-- pico-keys-sdk/src/apdu.c: command APDUs (parsing, chaining, dispatch) and response APDUs (status
-- words, and the splitting of a long response over GET RESPONSE commands).
pub mod Status
pub mod Parse
pub mod Chain
pub mod Response
mod Tests
