-- ===== src/Policy.antt =====
-- pico-keys-sdk/src/fs/object_policy.c: the access policy of a stored object, which is a header of
-- two bytes (version, number of rules) and rules of 14 bytes each. SHA-256 is a parameter of
-- `policy_hash`: it returns a digest, or none for a non-zero return code.
pub mod Validate
pub mod Authorize
pub mod Hash
mod Tests
use pico_all.Base.{
  ℕ, zero, suc, ◌+◌, ◌-◌, ◌*◌, bit_and, bit_or, Bool, true, false, not, ◌&&◌, ◌||◌, Option, none,
  some, List, [], ◌++◌, ltb, ◌==◌, if◌then◌else◌, length, take, drop, replicate,
}
use pico_all.Bytes.{
  err_null_param, exec_error, wrong_length, wrong_data, Result, ok, err, ByteArray, null, bytes,
  byte_at, get_uint16_be, get_uint32_be,
}

abbrev pub header_size : ℕ
header_size = 2

abbrev pub rule_size : ℕ
rule_size = 14

abbrev pub max_rules : ℕ
max_rules = 8

abbrev pub namespace_any : ℕ
namespace_any = 0xffff

abbrev pub hash_size : ℕ
hash_size = 16

-- `(x & ~mask) != 0` over uint32_t, for the masks of operations, facts and flags.
abbrev pub bits_outside : ℕ → ℕ → Bool
bits_outside not_mask x = not (bit_and x not_mask == 0)

abbrev pub not_operation_mask : ℕ
not_operation_mask = 0xffffe000

abbrev pub not_fact_mask : ℕ
not_fact_mask = 0xfffff800

abbrev pub not_flag_mask : ℕ
not_flag_mask = 0xffffffff

-- The fields of a rule, read from its 14 bytes.
pub record Rule : Type 0 where
  pub operations : ℕ
  pub required_facts : ℕ
  pub forbidden_facts : ℕ
  pub caller_namespace : ℕ
  pub flags : ℕ

-- The rule that starts at byte `at`.
pub read_rule : List ℕ → ℕ → Rule
read_rule p at = record {
  operations = get_uint16_be p at;
  required_facts = get_uint32_be p (at + 2);
  forbidden_facts = get_uint32_be p (at + 6);
  caller_namespace = get_uint16_be p (at + 10);
  flags = get_uint16_be p (at + 12);
}

-- `policy.data + FILE_OBJECT_POLICY_HEADER_SIZE + i * FILE_OBJECT_POLICY_RULE_SIZE`
pub nth_rule : List ℕ → ℕ → Rule
nth_rule p i = read_rule p (header_size + i * rule_size)

pub rule_valid : Rule → Bool
rule_valid r =
    if r.operations == 0 || bits_outside not_operation_mask r.operations
    then false
    else if bits_outside not_fact_mask (bit_or r.required_facts r.forbidden_facts)
        || not (bit_and r.required_facts r.forbidden_facts == 0)
    then false
    else if r.caller_namespace == 0 || bits_outside not_flag_mask r.flags
    then false
    else true

-- `for (i; i < policy.data[1]; i++)`, by the number of rules that are left.
pub rules_valid : List ℕ → ℕ → ℕ → Bool
rules_valid p zero i = true
rules_valid p (suc left) i =
    let rest = rules_valid p left (i + 1) in if rule_valid (nth_rule p i) then rest else false

pub validate_bytes : List ℕ → Result (Unit {0})
validate_bytes p =
    if ltb (length p) header_size || not (byte_at p 0 == 1) || ltb max_rules (byte_at p 1)
    then err wrong_data
    else if not (length p == header_size + byte_at p 1 * rule_size)
    then err wrong_length
    else if rules_valid p (byte_at p 1) 0
    then ok tt
    else err wrong_data

pub validate : ByteArray → Result (Unit {0})
unfolding validate_bytes
validate (null n) = err err_null_param
validate (bytes p) = validate_bytes p

-- The bytes of an array that is there.
abbrev pub policy_data : ByteArray → List ℕ
policy_data (null n) = []
policy_data (bytes p) = p

-- `memset` and `memcpy` over the first bytes of the memory at a pointer; what stands behind them stays.
abbrev pub write_front : List ℕ → List ℕ → List ℕ
write_front d memory = d ++ drop (length d) memory

-- `file_object_policy_hash` behind the test of its output pointer: `hash` is what stands at the
-- pointer before the call, and the first part of the result what stands there afterwards.
pub policy_hash : (List ℕ → Option (List ℕ)) → List ℕ → ByteArray → List ℕ × Result (Unit {0})
unfolding validate
policy_hash sha256 hash policy =
    let hash1 = write_front (replicate hash_size 0) hash in
    elim (validate policy) [
      | err c ↦ (hash1, err c)
      | ok u ↦ elim (sha256 (policy_data policy)) [
        | none ↦ (hash1, err exec_error)
        | some full_hash ↦ (write_front (take hash_size full_hash) hash1, ok tt)
      ]
    ]

pub record Context : Type 0 where
  pub facts : ℕ
  pub session_epoch : ℕ
  pub facts_epoch : ℕ
  pub caller_namespace : ℕ

-- The operation that is asked for is exactly one known operation.
pub operation_valid : ℕ → Bool
operation_valid operation = not (
    operation == 0
    || bits_outside not_operation_mask operation
    || not (bit_and operation (operation - 1) == 0))

pub context_valid : Context → Bool
context_valid c = not (
    c.caller_namespace == 0
    || c.caller_namespace == namespace_any
    || c.session_epoch == 0
    || not (c.session_epoch == c.facts_epoch)
    || bits_outside not_fact_mask c.facts)

pub rule_grants : Rule → ℕ → Context → Bool
rule_grants r operation c =
    not (bit_and r.operations operation == 0)
    && (r.caller_namespace == namespace_any || r.caller_namespace == c.caller_namespace)
    && bit_and c.facts r.required_facts == r.required_facts
    && bit_and c.facts r.forbidden_facts == 0

pub any_rule_grants : List ℕ → ℕ → ℕ → ℕ → Context → Bool
any_rule_grants p zero i operation c = false
any_rule_grants p (suc left) i operation c =
    let rest = any_rule_grants p left (i + 1) operation c in
    if rule_grants (nth_rule p i) operation c then true else rest

pub authorize_bytes : List ℕ → ℕ → Context → Bool
authorize_bytes p operation c =
    if not (operation_valid operation)
    then false
    else if not (context_valid c)
    then false
    else any_rule_grants p (byte_at p 1) 0 operation c

-- `context` is none for a null pointer.
pub authorize : ByteArray → ℕ → Option Context → Bool
unfolding authorize_bytes
authorize policy operation none = false
authorize (null n) operation (some c) = false
authorize (bytes p) operation (some c) = elim (validate_bytes p) [
  | err e ↦ false
  | ok u ↦ authorize_bytes p operation c
]
