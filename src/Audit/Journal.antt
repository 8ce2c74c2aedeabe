-- ===== src/Audit/Journal.antt =====
-- The record of the journal in src/fido/audit.c: its bytes, its slots, the hash chain over its
-- entries, and `load`. A record that is read is a `Journal`; `encode` gives its bytes back.
use pico_all.Base.{
  ℕ, zero, suc, ◌+◌, ◌-◌, ◌*◌, ◌/◌, ◌%◌, Bool, true, not, ◌&&◌, Option, none, some, List, [], ◌∷◌,
  ◌++◌, leb, ◌==◌, if◌then◌else◌, length, get_or, take, drop, replicate,
}
use pico_all.Bytes.{byte_at}

-- `rd32` and `wr32`: the least significant byte comes first.
abbrev pub rd32 : List ℕ → ℕ → ℕ
rd32 b i =
    byte_at b i + byte_at b (i + 1) * 256 + byte_at b (i + 2) * 65536 + byte_at b (i + 3) * 16777216

abbrev pub wr32 : ℕ → List ℕ
wr32 n = (n % 256) ∷ (n / 256 % 256) ∷ (n / 65536 % 256) ∷ (n / 16777216 % 256) ∷ []

-- The static `record`, with its fields in the places 0, 1, 5, 9 and 41.
pub record Journal : Type 0 where
  pub version : ℕ
  pub next : ℕ
  pub start : ℕ
  pub anchor : List ℕ
  pub slots : List (List ℕ)

-- `slot(n)`, with `AUDIT_SLOTS` slots of `AUDIT_ENTRY_LEN` bytes.
abbrev pub slot : Journal → ℕ → List ℕ
slot j n = get_or j.slots (n % 128) []

unfoldable pub chunks : ℕ → List ℕ → List (List ℕ)
chunks zero b = []
chunks (suc k) b = take 20 b ∷ chunks k (drop 20 b)

abbrev pub joined : List (List ℕ) → List ℕ
joined [] = []
joined (e ∷ es) = e ++ joined es

unfoldable pub decode : List ℕ → Journal
decode b = record {
  version = byte_at b 0;
  next = rd32 b 1;
  start = rd32 b 5;
  anchor = take 32 (drop 9 b);
  slots = chunks 128 (drop 41 b);
}

unfoldable pub encode : Journal → List ℕ
encode j = j.version ∷ (wr32 j.next ++ (wr32 j.start ++ (j.anchor ++ joined j.slots)))

-- The early returns on an error code other than 0.
abbrev pub and_then {ℓ κ} : {A : Type ℓ} {B : Type κ} → Option A → (A → Option B) → Option B
and_then none next = none
and_then (some a) next = next a

-- The loop of `load` over the retained entries: each has its own number.
abbrev pub numbered : Journal → ℕ → ℕ → Bool
numbered j n zero = true
numbered j n (suc k) = rd32 (slot j n) 0 == n && numbered j (n + 1) k

unfoldable pub record_valid : Journal → Bool
record_valid j =
    j.version == 1
    && leb j.start j.next
    && leb (j.next - j.start) 128
    && numbered j j.start (j.next - j.start)

-- "RSK-AUDIT-GENESIS-v1"
abbrev pub genesis_tag : List ℕ
genesis_tag =
    82 ∷ 83 ∷ 75 ∷ 45 ∷ 65 ∷ 85 ∷ 68 ∷ 73 ∷ 84 ∷ 45 ∷ 71 ∷ 69 ∷ 78 ∷ 69 ∷ 83 ∷ 73 ∷ 83 ∷ 45 ∷ 118
    ∷ 49 ∷ []

abbrev pub empty_slots : List (List ℕ)
empty_slots = replicate 128 (replicate 20 0)

-- The journal of a card that has no record yet, with the digest of its seed.
abbrev pub fresh : List ℕ → Journal
fresh seed = record { version = 1; next = 0; start = 0; anchor = seed; slots = empty_slots }

-- `sha` is `mbedtls_sha256`, with no digest where it reports an error.
module _ (sha : List ℕ → Option (List ℕ)) where
  -- `load`, from the data of the journal's file, which is empty where there is none.
  unfoldable pub load : List ℕ → List ℕ → Option Journal
  load serial [] = and_then (sha (genesis_tag ++ serial)) (λ seed. some (fresh seed))
  load serial (x ∷ b) =
      let j = decode (x ∷ b) in
      if not (length (x ∷ b) == 2601) then none else if record_valid j then some j else none

  abbrev pub chain : List ℕ → List ℕ → Option (List ℕ)
  chain head entry = sha (head ++ entry)

  -- The loops of `audit_scrub` and `head` over `k` entries from entry `n` on.
  abbrev pub chain_slots : Journal → List ℕ → ℕ → ℕ → Option (List ℕ)
  chain_slots j h n zero = some h
  chain_slots j h n (suc k) = and_then (chain h (slot j n)) (λ h'. chain_slots j h' (n + 1) k)

  unfoldable pub head : Journal → Option (List ℕ)
  head j = chain_slots j j.anchor j.start (j.next - j.start)

  -- The reference: the hash chain over a list of entries.
  abbrev pub chain_all : List ℕ → List (List ℕ) → Option (List ℕ)
  chain_all h [] = some h
  chain_all h (e ∷ es) = and_then (sha (h ++ e)) (λ h'. chain_all h' es)
