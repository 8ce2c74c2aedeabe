-- ===== src/Apdu/Response.antt =====
-- The response side of apdu.c: `apdu_finish`, `apdu_next`, `apdu_limit_response`, and the GET
-- RESPONSE half of `apdu_process`. What is sent is what the driver is told to send: a size from an
-- offset of the response buffer. A write past the buffer's end changes nothing.
pub mod Masking
pub mod Delivery
use pico_all.Base.{
  ℕ, ◌+◌, ◌-◌, ◌/◌, ◌%◌, Bool, true, false, not, ◌||◌, Option, none, some, List, [], ltb, leb, ◌==◌,
  if◌then◌else◌, set, take, drop,
}
use pico_all.Bytes.{get_uint16_be}

-- `apdu.rdata` (the whole buffer), `apdu.rlen`, `apdu.ne`, `apdu.sw`, `rdata_gr` as an offset (none
-- is the null pointer), `rdata_bk` and `response_pending`.
pub record Response : Type 0 where
  pub rdata : List ℕ
  pub rlen : ℕ
  pub ne : ℕ
  pub sw : ℕ
  pub rdata_gr : Option ℕ
  pub rdata_bk : ℕ
  pub pending : Bool

-- `p[0] = a; p[1] = b;` at offset `at`.
abbrev pub write_two : List ℕ → ℕ → ℕ → ℕ → List ℕ
write_two d at a b = set (set d at a) (at + 1) b

-- The bytes that the driver sends.
abbrev pub sent : List ℕ → ℕ → ℕ → List ℕ
sent d at size = take size (drop at d)

-- The second byte of the status 61xx: the number of bytes that are left, or 0 for 256 and more.
abbrev pub bytes_left : ℕ → ℕ
bytes_left n = if leb 256 n then 0 else n % 256

-- Saves the two bytes at offset `at`, writes 61xx over them, and counts `n` bytes as sent.
pub split_at : Response → ℕ → ℕ → Response
split_at r at n = record r {
  rdata = write_two r.rdata at 0x61 (bytes_left (r.rlen - n));
  rlen = r.rlen - n;
  rdata_gr = some at;
  rdata_bk = get_uint16_be r.rdata at;
  pending = true;
}

unfoldable pub apdu_finish : Response → Response
apdu_finish r = record r { rdata = write_two r.rdata r.rlen (r.sw / 256 % 256) (r.sw % 256) }

-- The new state and the number of bytes to send from the start of the buffer.
unfoldable pub apdu_next : Response → Response × ℕ
unfolding split_at
apdu_next r =
    if not (r.sw == 0)
    then (if leb r.rlen r.ne
        then (record r { pending = false }, (r.rlen + 2) % 65536)
        else (split_at r r.ne r.ne, (r.ne + 2) % 65536))
    else (record r { pending = false }, 0)

pub apdu_limit_response : Response → ℕ → ℕ → Response × ℕ
unfolding split_at
apdu_limit_response r size_next max_size =
    if r.sw == 0 || ltb max_size 2 || leb size_next max_size
    then (r, size_next)
    else if leb r.rlen (max_size - 2)
    then (r, size_next)
    else (split_at r (max_size - 2) (max_size - 2), max_size)

-- `apdu_process` on a parsed command: `true` is its return value 1, to run the command; otherwise
-- the driver is given bytes to send. A command other than GET RESPONSE clears the response.
pub continue_response : Response → ℕ → Response × List ℕ
continue_response r g =
    let whole = write_two r.rdata g (r.rdata_bk / 256) (r.rdata_bk % 256) in
    if leb r.rlen r.ne
    then (
      record r { rdata = whole; rlen = 0; sw = 0; rdata_gr = some 0; pending = false },
      sent whole g ((r.rlen + 2) % 65536),
    )
    else let next = split_at (record r { rdata = whole }) (g + r.ne) r.ne in
      (next, sent next.rdata g ((r.ne + 2) % 65536))

unfoldable pub apdu_process : Response → ℕ → Response × Bool × List ℕ
unfolding continue_response split_at
apdu_process r ins =
    if ins == 0xc0
    then (if not r.pending then (record r { rdata_gr = some 0 }, true, []) else elim r.rdata_gr [
      | none ↦ (record r { rdata_gr = some 0 }, true, [])
      | some g ↦ let (r', out) = continue_response r g in (r', false, out)
    ])
    else (record r { sw = 0; rlen = 0; rdata_gr = some 0; pending = false }, true, [])
