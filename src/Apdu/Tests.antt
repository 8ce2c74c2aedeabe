-- ===== src/Apdu/Tests.antt =====
-- Runs of apdu.c, and its theorems at concrete inputs.
use pico_all.Base.{ℕ, ◌≡◌, refl, true, false, some, List, [], ◌∷◌, arith, length, At-start}
use pico_all.Bytes.{bytes}
use pico_all.Apdu.Status.{set_res_sw, sw_ok}
use pico_all.Apdu.Parse.{Parsed, parse}
use pico_all.Apdu.Parse.Forms.{Bounded, parse_bounds, data_le_extended, body, Reads, parse-body}
use pico_all.Apdu.Chain.{
  Apps, State, Command, process_apdu, dispatch, chain_link, store_link, header_of, is_select,
  unchained, finish_chain, same_header, reset,
}
use pico_all.Apdu.Chain.Invariant.{IsChain, process_apdu-IsChain}
use pico_all.Apdu.Chain.Assembly.{link, send_links, process_apdu-links}
use pico_all.Apdu.Response.{Response, apdu_finish, apdu_next, apdu_process}
use pico_all.Apdu.Response.Delivery.{
  get_responses, exchange, payloads, last_status, IsResponse, exchange_delivers,
}

-- SELECT with five bytes of an AID and an expected length.
abbrev select_bytes : List ℕ
select_bytes = 0x00 ∷ 0xA4 ∷ 0x04 ∷ 0x00 ∷ 2 ∷ 0xA0 ∷ 0x01 ∷ 0x00 ∷ []

abbrev select_parsed : Parsed
select_parsed = record { accepted = true; nc = 2; ne = 256; data_at = some 5 }

parses_select : parse (bytes select_bytes) ≡ some select_parsed
unfolding parse
parses_select = refl

refuses_short :
    parse (bytes (0 ∷ 0xA4 ∷ 4 ∷ 0 ∷ 9 ∷ 1 ∷ 2 ∷ 3 ∷ []))
    ≡ some (record { accepted = false; nc = 9; ne = 0; data_at = some 5 })
unfolding parse
refuses_short = refl

parse_bounds_example : Bounded select_bytes select_parsed
parse_bounds_example = parse_bounds select_bytes select_parsed (omega arith) parses_select refl

parse-body_example :
    Reads (0 ∷ 0xCB ∷ 0x3F ∷ 0xFF ∷ body (data_le_extended (1 ∷ 2 ∷ []) 65536)) (1 ∷ 2 ∷ []) 65536
parse-body_example = parse-body 0 0xCB 0x3F 0xFF (data_le_extended (1 ∷ 2 ∷ []) 65536) (omega arith)

-- An application that answers every command with its length as the reply's.
abbrev echo : Apps
echo = record {
  select_app = λ aid. false;
  current_app = some (record {
    supports_secure_messaging = false;
    process = λ c r. record { sw = 0x9000; rlen = length c.body };
  });
}

abbrev idle : State
idle = record {
  is_chaining = false;
  chain = [];
  header = record { cla = 0; ins = 0; p1 = 0; p2 = 0 };
  reply = record { sw = 0; rlen = 0 };
}

abbrev put_data : Command
put_data = record { cla = 0x00; ins = 0xDB; p1 = 0x3F; p2 = 0xFF; body = 7 ∷ [] }

chains_two :
    process_apdu echo (send_links echo idle put_data ((1 ∷ 2 ∷ []) ∷ (3 ∷ []) ∷ [])) put_data
    ≡ record {
      is_chaining = false;
      chain = [];
      header = header_of put_data;
      reply = record { sw = 0x9000; rlen = 4 };
    }
unfolding send_links process_apdu chain_link store_link same_header set_res_sw unchained is_select
    finish_chain reset dispatch
chains_two = refl

idle-IsChain : IsChain idle
idle-IsChain = record { room = omega arith; idle = λ _. refl }

process_apdu-IsChain_example : IsChain (process_apdu echo idle (link put_data (1 ∷ 2 ∷ [])))
process_apdu-IsChain_example =
    process_apdu-IsChain echo idle (link put_data (1 ∷ 2 ∷ [])) idle-IsChain

put_data_plain : is_select put_data ≡ false
unfolding is_select
put_data_plain = refl

process_apdu-links_example :
    process_apdu echo (send_links echo idle put_data ((1 ∷ 2 ∷ []) ∷ (3 ∷ []) ∷ [])) put_data
    ≡ dispatch echo
        (record idle { header = header_of put_data; reply = sw_ok (record { sw = 0; rlen = 0 }) })
        (record put_data { body = 1 ∷ 2 ∷ 3 ∷ 7 ∷ [] })
process_apdu-links_example =
    process_apdu-links echo idle put_data (1 ∷ 2 ∷ []) ((3 ∷ []) ∷ []) (omega arith) refl
      put_data_plain refl (omega arith)

-- Five bytes of response to a command that expects two.
abbrev five : Response
five = record {
  rdata = 1 ∷ 2 ∷ 3 ∷ 4 ∷ 5 ∷ 0 ∷ 0 ∷ 0 ∷ [];
  rlen = 5;
  ne = 2;
  sw = 0x9000;
  rdata_gr = some 0;
  rdata_bk = 0;
  pending = false;
}

splits_five :
    exchange five (2 ∷ 2 ∷ [])
    ≡ (1 ∷ 2 ∷ 0x61 ∷ 3 ∷ []) ∷ (3 ∷ 4 ∷ 0x61 ∷ 1 ∷ []) ∷ (5 ∷ 0x90 ∷ 0 ∷ []) ∷ []
unfolding exchange apdu_finish apdu_next get_responses apdu_process
splits_five = refl

five-IsResponse : IsResponse five (1 ∷ 2 ∷ 3 ∷ 4 ∷ 5 ∷ [])
five-IsResponse = record {
  x = 0;
  y = 0;
  junk = 0 ∷ [];
  place = At-start five.rdata;
  size = refl;
  data_bytes = omega arith;
  short = omega arith;
  some_status = omega arith;
  status_bound = omega arith;
}

exchange_delivers_example :
    (payloads (exchange five (2 ∷ 2 ∷ [])) ≡ 1 ∷ 2 ∷ 3 ∷ 4 ∷ 5 ∷ [])
    × (last_status (exchange five (2 ∷ 2 ∷ [])) ≡ 0x90 ∷ 0x00 ∷ [])
exchange_delivers_example =
    exchange_delivers five (1 ∷ 2 ∷ 3 ∷ 4 ∷ 5 ∷ []) (2 ∷ 2 ∷ []) five-IsResponse (omega arith)
