-- ===== src/Apdu/Status.antt =====
-- Status words, `set_res_sw` of apdu.c, and the macros of apdu.h that the chaining and dispatch
-- code uses. The error light that `set_res_sw` flashes on the device is not part of this state.
use pico_all.Base.{ℕ, ◌+◌, ◌*◌, not, ◌&&◌, ◌==◌, if◌then◌else◌}

-- The part of `struct apdu` that a status word is written to.
pub record Reply : Type 0 where
  pub sw : ℕ
  pub rlen : ℕ

-- A status other than 90xx and 61xx drops the response data.
unfoldable pub set_res_sw : Reply → ℕ → ℕ → Reply
set_res_sw r sw1 sw2 = record {
  sw = sw1 * 256 + sw2;
  rlen = if not (sw1 == 0x90) && not (sw1 == 0x61) then 0 else r.rlen;
}

abbrev pub sw_ok : Reply → Reply
sw_ok r = set_res_sw r 0x90 0x00

abbrev pub sw_wrong_length : Reply → Reply
sw_wrong_length r = set_res_sw r 0x67 0x00

abbrev pub sw_last_chain_expected : Reply → Reply
sw_last_chain_expected r = set_res_sw r 0x68 0x83

abbrev pub sw_cla_not_supported : Reply → Reply
sw_cla_not_supported r = set_res_sw r 0x6E 0x00

abbrev pub sw_file_not_found : Reply → Reply
sw_file_not_found r = set_res_sw r 0x6A 0x82
