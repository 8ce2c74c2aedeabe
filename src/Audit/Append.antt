-- ===== src/Audit/Append.antt =====
-- What src/fido/audit.c does to a journal that it has read: an entry is appended, a run of an event
-- is counted in an entry that is there, and the retained entries are folded into the anchor.
use pico_all.Base.{
  ℕ, zero, suc, ◌+◌, ◌-◌, ◌*◌, ◌/◌, ◌%◌, ◌^◌, bit_and, bit_or, Bool, not, ◌&&◌, Option, none, some,
  List, [], ◌∷◌, ◌++◌, ltb, leb, ◌==◌, if◌then◌else◌, length, set, take, replicate,
}
use pico_all.Bytes.{byte_at}
use pico_all.Audit.Journal.{wr32, Journal, slot, and_then, empty_slots, chain, head}

-- The clocks of the board at the time of an entry: `has_set_rtc`, `get_rtc_time`, with 0 for a time
-- before 1970, and `board_millis`.
pub record Clock : Type 0 where
  pub has_set_rtc : Bool
  pub rtc_time : ℕ
  pub board_millis : ℕ

-- Is the time of the host used?
abbrev pub wall_clock : Clock → Bool
wall_clock c = c.has_set_rtc && leb 1577836800 c.rtc_time && leb c.rtc_time 4294967295

-- The bytes of the entry that `append_one` writes.
unfoldable pub make_entry : Clock → ℕ → ℕ → ℕ → List ℕ → List ℕ
make_entry c n ev aux detail =
    let shown = take 8 detail in
    wr32 n
    ++ (wr32 (if wall_clock c then c.rtc_time else c.board_millis)
        ++ ((if wall_clock c then bit_or ev 128 else ev)
            ∷ aux
            ∷ (shown ++ replicate (10 - length shown) 0)))

-- The repeat count of a run: `AUDIT_CONFIG_WRITE` keeps its own in the detail.
abbrev pub count_offset : ℕ → ℕ
count_offset ev = if ev == 21 then 10 else 18

abbrev pub get_count : ℕ → List ℕ → ℕ
get_count o e = byte_at e o + byte_at e (o + 1) * 256

abbrev pub count_up : ℕ → ℕ
count_up n = if n == 65535 then n else n + 1

abbrev pub aux_mask : ℕ → ℕ
aux_mask aux = if ltb aux 7 then 2 ^ aux else 128

unfoldable pub bump_count : ℕ → List ℕ → List ℕ
bump_count o e =
    let count = count_up (get_count o e) in set (set e o (count % 256)) (o + 1) (count / 256)

unfoldable pub bump : ℕ → ℕ → List ℕ → List ℕ
bump ev aux e =
    let counted = bump_count (count_offset ev) e in
    if ev == 21 then set counted 12 (bit_or (byte_at counted 12) (aux_mask aux)) else counted

-- The walk back over `k` entries, from the one before entry `n`.
abbrev pub find_run : Journal → ℕ → ℕ → ℕ → Option ℕ
find_run j ev n zero = none
find_run j ev n (suc k) =
    let rest = find_run j ev (n - 1) k in
    if ev == 21 && not (n == j.next)
    then none
    else if bit_and (byte_at (slot j (n - 1)) 8) 127 == ev
    then some (n - 1)
    else rest

abbrev pub set_slot : Journal → ℕ → List ℕ → Journal
set_slot j n e = record j { slots = set j.slots (n % 128) e }

-- The walk of `append` for a run; none where no entry is to be counted up.
unfoldable pub coalesce : ℕ → ℕ → Journal → Option Journal
coalesce ev aux j = elim (find_run j ev j.next (j.next - j.start)) [
  | none ↦ none
  | some n ↦ some (set_slot j n (bump ev aux (slot j n)))
]

-- What `append` does to the entry that it has just appended.
unfoldable pub mark : ℕ → ℕ → Journal → Journal
mark ev aux j =
    if ev == 21 then set_slot j (j.next - 1) (set (slot j (j.next - 1)) 12 (aux_mask aux)) else j

abbrev pub write_entry : List ℕ → Journal → Journal
write_entry e j = record j { slots = set j.slots (j.next % 128) e; next = j.next + 1 }

module _ (sha : List ℕ → Option (List ℕ)) where
  -- The oldest entry of a full window is folded into the anchor.
  unfoldable pub make_room : Journal → Option Journal
  make_room j =
      if j.next - j.start == 128
      then and_then (chain sha j.anchor (slot j j.start))
          (λ a. some (record j { anchor = a; start = j.start + 1 }))
      else some j

  unfoldable pub append_one : Clock → ℕ → ℕ → List ℕ → Journal → Option Journal
  append_one c ev aux detail j =
      if j.next == 4294967295
      then none
      else and_then (make_room j) (λ j'. some (write_entry (make_entry c j.next ev aux detail) j'))

  -- The part of `append` between `load` and `save`; `c0` is the clock at the boot entry, and `run`
  -- the argument `coalesce`.
  unfoldable pub boot_entry : Clock → Bool → Journal → Option Journal
  boot_entry c0 boot_logged j = if boot_logged then some j else append_one c0 1 0 [] j

  unfoldable pub append_event : Clock → ℕ → ℕ → List ℕ → Journal → Option Journal
  append_event c ev aux detail j =
      and_then (append_one c ev aux detail j) (λ j'. some (mark ev aux j'))

  unfoldable pub record_event :
      Clock → Clock → Bool → Bool → ℕ → ℕ → List ℕ → Journal → Option Journal
  record_event c0 c boot_logged run ev aux detail j = and_then (boot_entry c0 boot_logged j) (λ j'.
      elim (if boot_logged && run then coalesce ev aux j' else none) [
        | none ↦ append_event c ev aux detail j'
        | some counted ↦ some counted
      ])

  -- The part of `audit_scrub` between `load` and `put`.
  unfoldable pub scrub : Journal → Option Journal
  scrub j =
      and_then (head sha j)
        (λ h. some (record j { anchor = h; start = j.next; slots = empty_slots }))
