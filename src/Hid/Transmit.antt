-- ===== src/Hid/Transmit.antt =====
-- The sending side of hid.c: a response in the transmit buffer goes out in frames of 64 bytes, whose
-- headers are written over what was sent before.
pub mod Joined
pub mod Response
use pico_all.Base.{
  ℕ, zero, suc, ◌+◌, ◌-◌, ◌*◌, ◌/◌, ◌%◌, Bool, true, false, not, ◌&&◌, Option, none, some, List, [],
  ◌∷◌, ◌++◌, ltb, leb, ◌==◌, if◌then◌else◌, length, take, drop,
}
use pico_all.Bytes.{byte_at, same_bytes}
use pico_all.Hid.Frame.{cid_bytes}

-- `write_status_t`
pub data WriteStatus : Type 0 where
  write_unknown write_pending write_failed write_success : WriteStatus

-- `hid_tx` of the CTAP interface, `ctap_resp` as an offset into its buffer, `send_buffer_size`,
-- `last_write_result` and `busy_response_inflight`.
pub record Tx : Type 0 where
  pub buffer : List ℕ
  pub r_ptr : ℕ
  pub w_ptr : ℕ
  pub resp : ℕ
  pub send_size : ℕ
  pub status : WriteStatus
  pub busy_inflight : Bool

-- A write of `x` at the place `p`.
abbrev pub splice : List ℕ → ℕ → List ℕ → List ℕ
splice b p x = take p b ++ (x ++ drop (p + length x) b)

-- `driver_exec_finished_cont_hid` with `hid_write_offset`
pub exec_finished_cont : ℕ → ℕ → ℕ → ℕ → Tx → Tx
exec_finished_cont cid cmd size offset t =
    let place = offset - 7 in
    record t {
      buffer =
          splice t.buffer place (cid_bytes cid ++ (cmd ∷ (size / 256 % 256) ∷ (size % 256) ∷ []));
      resp = place;
      send_size = size;
      w_ptr = t.w_ptr + (size + 7 + place);
      r_ptr = t.r_ptr + place;
    }

abbrev pub is_keepalive : ℕ → Bool
is_keepalive c = c == 187

abbrev pub is_pending : WriteStatus → Bool
is_pending write_pending = true
is_pending _ = false

abbrev pub is_success : WriteStatus → Bool
is_success write_success = true
is_success _ = false

-- What a report that was sent takes off `send_buffer_size`; `c` is byte 4 of the report.
abbrev pub sent_part : ℕ → ℕ
sent_part c = if leb 128 c then (if is_keepalive c then 0 else 57) else 59

pub note_sent : ℕ → Tx → Tx
note_sent c t =
    if is_pending t.status
    then record t { status = write_success; send_size = t.send_size - sent_part c }
    else t

-- The header of the next frame, and the place that is sent from.
pub next_header : List ℕ → ℕ → Tx → Tx
next_header report c t =
    if is_success t.status && not (is_keepalive c)
    then (if ltb 0 t.send_size
        then record t {
          buffer =
              splice t.buffer (t.resp + 59)
                (take 4 report ++ (if leb 128 c then 0 else c + 1) ∷ []);
          resp = t.resp + 59;
          r_ptr = t.r_ptr + 59;
        }
        else record t { r_ptr = t.r_ptr + 64 })
    else t

pub rewind : Tx → Tx
rewind t = if leb t.w_ptr t.r_ptr then record t { r_ptr = 0; w_ptr = 0 } else t

-- `tud_hid_report_complete_cb` for a report of 64 bytes on the CTAP interface
pub report_complete : List ℕ → Tx → Tx
report_complete report t =
    if t.busy_inflight
    then record t { busy_inflight = false; status = write_success }
    else rewind (next_header report (byte_at report 4) (note_sent (byte_at report 4) t))

-- The part of `hid_task` that sends, where `driver_write_hid` is taken to succeed.
pub send_next : Tx → Option (List ℕ)
send_next t =
    if ltb t.r_ptr t.w_ptr && not (is_pending t.status)
    then some (take 64 (drop t.r_ptr t.buffer))
    else none

-- Reports one after another, each completed before the next is sent.
abbrev pub drain : ℕ → Tx → List (List ℕ)
drain zero t = []
drain (suc n) t = elim (send_next t) [
  | none ↦ []
  | some report ↦ report ∷ drain n (report_complete report (record t { status = write_pending }))
]

-- What a host makes of reports: their channel and sequence are checked, and the data joined.
abbrev pub join_rest : List ℕ → ℕ → List (List ℕ) → Option (List ℕ)
join_rest cid k [] = some []
join_rest cid k (f ∷ fs) =
    let rest = join_rest cid (k + 1) fs in
    if same_bytes (take 4 f) cid && byte_at f 4 == k
    then (elim rest [ none ↦ none | some d ↦ some (drop 5 f ++ d) ])
    else none

abbrev pub join_first : List ℕ → Option (List ℕ) → Option (ℕ × List ℕ)
join_first f none = none
join_first f (some d) = some (byte_at f 4, take (byte_at f 5 * 256 + byte_at f 6) (drop 7 f ++ d))

abbrev pub join_frames : List (List ℕ) → Option (ℕ × List ℕ)
join_frames [] = none
join_frames (f ∷ fs) = join_first f (join_rest (take 4 f) 0 fs)
