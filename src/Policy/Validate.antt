-- ===== src/Policy/Validate.antt =====
-- Which policies `validate` accepts.
use pico_all.Base.{
  ℕ, zero, suc, ◌+◌, ◌*◌, ◌≤◌, ◌<◌, List, length, true, ◌==◌, bit_and, bit_or, ◌≡◌, refl, ◌≢◌, ◌↔◌,
  inl, inr, arith, Bool-cases,
}
use pico_all.Bytes.{bytes, ok, byte_at}
use pico_all.Policy.{
  Rule, nth_rule, rule_valid, rules_valid, validate_bytes, validate, not_operation_mask,
  not_fact_mask, not_flag_mask,
}

-- What the source demands of one rule.
pub record RuleWellFormed (r : Rule) : Type 0 where
  pub some_operation : r.operations ≢ 0
  pub known_operations : bit_and r.operations not_operation_mask ≡ 0
  pub known_facts : bit_and (bit_or r.required_facts r.forbidden_facts) not_fact_mask ≡ 0
  pub consistent : bit_and r.required_facts r.forbidden_facts ≡ 0
  pub some_namespace : r.caller_namespace ≢ 0
  pub no_flags : bit_and r.flags not_flag_mask ≡ 0

pub record WellFormed (p : List ℕ) : Type 0 where
  pub version : byte_at p 0 ≡ 1
  pub few_rules : byte_at p 1 ≤ 8
  pub size : length p ≡ 2 + byte_at p 1 * 14
  pub each_rule : (i : ℕ) → i < byte_at p 1 → RuleWellFormed (nth_rule p i)

rule_valid→ : (r : Rule) → rule_valid r ≡ true → RuleWellFormed r
unfolding rule_valid
rule_valid→ r h = record {
  some_operation = ground arith;
  known_operations = ground arith;
  known_facts = ground arith;
  consistent = ground arith;
  some_namespace = ground arith;
  no_flags = ground arith;
}

→rule_valid : (r : Rule) → RuleWellFormed r → rule_valid r ≡ true
unfolding rule_valid
→rule_valid r w = ground arith

rules_valid→ :
    (p : List ℕ) (left i : ℕ)
    → rules_valid p left i ≡ true
    → (j : ℕ) → i ≤ j
    → j < i + left
    → rule_valid (nth_rule p j) ≡ true
unfolding rules_valid
rules_valid→ p zero i h j lo hi = absurd (omega arith)
rules_valid→ p (suc left) i h j lo hi = elim (Bool-cases (i == j)) [
  | inl e ↦ ground arith
  | inr ne ↦ rules_valid→ p left (i + 1) (ground arith) j (ground arith) (omega arith)
]

→rules_valid :
    (p : List ℕ) (left i : ℕ)
    → ((j : ℕ) → i ≤ j → j < i + left → rule_valid (nth_rule p j) ≡ true)
    → rules_valid p left i ≡ true
unfolding rules_valid
→rules_valid p zero i h = refl
→rules_valid p (suc left) i h = ground (
  arith,
  h i (omega arith) (omega arith),
  →rules_valid p left (i + 1) (λ j lo hi. h j (omega arith) (omega arith)),
)

validate_bytes→ : (p : List ℕ) → validate_bytes p ≡ ok tt → WellFormed p
unfolding validate_bytes
validate_bytes→ p h = record {
  version = ground arith;
  few_rules = ground arith;
  size = ground arith;
  each_rule = λ i lt.
      rule_valid→ _ (rules_valid→ p (byte_at p 1) 0 (ground arith) i (omega arith) (omega arith));
}

→validate_bytes : (p : List ℕ) → WellFormed p → validate_bytes p ≡ ok tt
unfolding validate_bytes
→validate_bytes p w = ground (
  arith,
  w.version,
  w.few_rules,
  w.size,
  →rules_valid p (byte_at p 1) 0 (λ j lo hi. →rule_valid _ (w.each_rule j (omega arith))),
)

-- A policy is accepted exactly when its version is 1, it has at most eight rules, its length is
-- that of the header and its rules, and each of its rules names known operations and facts only,
-- asks for no fact that it forbids, names a caller and sets no flag.
pub validate_iff : (p : List ℕ) → (validate (bytes p) ≡ ok tt) ↔ WellFormed p
unfolding validate
validate_iff p = (validate_bytes→ p, →validate_bytes p)
