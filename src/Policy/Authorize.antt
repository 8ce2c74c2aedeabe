-- ===== src/Policy/Authorize.antt =====
-- When `authorize` lets an operation through.
use pico_all.Base.{
  ℕ, zero, suc, ◌+◌, ◌^◌, ◌≤◌, ◌<◌, bit_and, ◌≡◌, refl, sym, ◌∙◌, ◌≢◌, ◌↔◌, ◌⊎◌, inl, inr, Bool,
  true, false, not, ◌&&◌, some, List, arith, ltb, ◌==◌, if◌then◌else◌, Bool-cases, passes_below,
  passes_below-lt,
}
use pico_all.Bytes.{Code, Result, ok, err, bytes, byte_at}
use pico_all.Policy.{
  not_fact_mask, Rule, nth_rule, validate_bytes, validate, Context, operation_valid, context_valid,
  rule_grants, any_rule_grants, authorize_bytes, authorize,
}
use pico_all.Policy.Validate.{WellFormed, validate_iff}

-- The rule lists the operation, is for this caller, and its facts hold and are not forbidden.
pub record Grants (r : Rule) (operation : ℕ) (c : Context) : Type 0 where
  pub lists : bit_and r.operations operation ≢ 0
  pub for_caller : (r.caller_namespace ≡ 0xffff) ⊎ (r.caller_namespace ≡ c.caller_namespace)
  pub has_required : bit_and c.facts r.required_facts ≡ r.required_facts
  pub has_no_forbidden : bit_and c.facts r.forbidden_facts ≡ 0

-- The session is live, its facts were gathered in it and are known ones, and the caller is named.
pub record ContextSound (c : Context) : Type 0 where
  pub named : c.caller_namespace ≢ 0
  pub not_any : c.caller_namespace ≢ 0xffff
  pub live : c.session_epoch ≢ 0
  pub same_epoch : c.session_epoch ≡ c.facts_epoch
  pub known_facts : bit_and c.facts not_fact_mask ≡ 0

rule_grants-Grants : (r : Rule) (op : ℕ) (c : Context) → rule_grants r op c ≡ true → Grants r op c
unfolding rule_grants
rule_grants-Grants r op c h = record {
  lists = ground arith;
  for_caller = ground arith;
  has_required = ground arith;
  has_no_forbidden = ground arith;
}

Grants-rule_grants : (r : Rule) (op : ℕ) (c : Context) → Grants r op c → rule_grants r op c ≡ true
unfolding rule_grants
Grants-rule_grants r op c g = ground arith

any_rule_grants→ :
    (p : List ℕ) (left i op : ℕ) (c : Context)
    → any_rule_grants p left i op c ≡ true
    → (j : ℕ) × (i ≤ j) × (j < i + left) × (rule_grants (nth_rule p j) op c ≡ true)
unfolding any_rule_grants
any_rule_grants→ p zero i op c h = cc
any_rule_grants→ p (suc left) i op c h = elim (Bool-cases (rule_grants (nth_rule p i) op c)) [
  | inl e ↦ (i, omega arith, omega arith, e)
  | inr e ↦
      let (j, lo, hi, g) = any_rule_grants→ p left (i + 1) op c (ground arith) in
      (j, omega arith, omega arith, g)
]

→any_rule_grants :
    (p : List ℕ) (left i op : ℕ) (c : Context) (j : ℕ)
    → i ≤ j
    → j < i + left
    → rule_grants (nth_rule p j) op c ≡ true
    → any_rule_grants p left i op c ≡ true
unfolding any_rule_grants
→any_rule_grants p zero i op c j lo hi g = absurd (omega arith)
→any_rule_grants p (suc left) i op c j lo hi g = elim (Bool-cases (i == j)) [
  | inl e ↦ ground arith
  | inr e ↦ ground (arith, →any_rule_grants p left (i + 1) op c j (ground arith) (omega arith) g)
]

context_valid-ContextSound : (c : Context) → context_valid c ≡ true → ContextSound c
unfolding context_valid
context_valid-ContextSound c h = record {
  named = ground arith;
  not_any = ground arith;
  live = ground arith;
  same_epoch = ground arith;
  known_facts = ground arith;
}

ContextSound-context_valid : (c : Context) → ContextSound c → context_valid c ≡ true
unfolding context_valid
ContextSound-context_valid c s = ground arith

-- One of the thirteen operations of object_policy.h.
abbrev pub IsOperation : ℕ → Type 0
IsOperation op = (k : ℕ) × (k < 13) × (op ≡ 2 ^ k)

power_index : ℕ → ℕ → ℕ
power_index zero op = 0
power_index (suc k) op = let rest = power_index k op in if op == 2 ^ k then k else rest

is_power : ℕ → Bool
unfolding power_index
is_power op = ltb (power_index 13 op) 13 && op == 2 ^ power_index 13 op

same_test : ℕ → Bool
unfolding operation_valid is_power
same_test op = if operation_valid op then is_power op else not (is_power op)

same_test_table : passes_below same_test 65536 ≡ true
unfolding passes_below same_test
same_test_table = refl

is_power-pow_table : passes_below (λ k. is_power (2 ^ k)) 13 ≡ true
unfolding passes_below is_power
is_power-pow_table = refl

is_power-pow : (k : ℕ) → k < 13 → is_power (2 ^ k) ≡ true
is_power-pow k h = passes_below-lt (λ k. is_power (2 ^ k)) 13 k h is_power-pow_table

is_power→ : (op : ℕ) → is_power op ≡ true → IsOperation op
unfolding is_power
is_power→ op h = (power_index 13 op, ground arith, ground arith)

operation_valid-IsOperation : (op : ℕ) → op < 65536 → operation_valid op ≡ true → IsOperation op
operation_valid-IsOperation op h v =
    is_power→ op
      (unfold same_test in ground (arith, passes_below-lt same_test 65536 op h same_test_table))

IsOperation-operation_valid : (op : ℕ) → op < 65536 → IsOperation op → operation_valid op ≡ true
IsOperation-operation_valid op h (k, lt, e) =
    let power : is_power op ≡ true = rw e (is_power-pow k lt) in
    unfold same_test in ground (arith, power, passes_below-lt same_test 65536 op h same_test_table)

-- What it takes for an operation to be let through.
pub record Authorized (p : List ℕ) (op : ℕ) (c : Context) : Type 0 where
  pub policy : WellFormed p
  pub one_operation : IsOperation op
  pub context : ContextSound c
  pub rule : ℕ
  pub rule_bound : rule < byte_at p 1
  pub granted : Grants (nth_rule p rule) op c

Result-cases : (r : Result (Unit {0})) → (r ≡ ok tt) ⊎ ((e : Code) × (r ≡ err e))
Result-cases (ok u) = inl refl
Result-cases (err e) = inr (e, refl)

authorize_ok :
    (p : List ℕ) (op : ℕ) (c : Context)
    → validate_bytes p ≡ ok tt
    → authorize (bytes p) op (some c) ≡ authorize_bytes p op c
unfolding authorize
authorize_ok p op c e = rw (e, authorize)

authorize_err :
    (p : List ℕ) (op : ℕ) (c : Context) {x : Code}
    → validate_bytes p ≡ err x
    → authorize (bytes p) op (some c) ≡ false
unfolding authorize
authorize_err p op c e = rw (e, authorize)

authorize→ :
    (p : List ℕ) (op : ℕ) (c : Context)
    → op < 65536
    → authorize (bytes p) op (some c) ≡ true
    → Authorized p op c
authorize→ p op c h a = elim (Result-cases (validate_bytes p)) [
  | inl e ↦
      let b : authorize_bytes p op c ≡ true = sym (authorize_ok p op c e) ∙ a in
      let (j, lo, hi, g) =
        any_rule_grants→ p (byte_at p 1) 0 op c (unfold authorize_bytes in ground arith) in
      record {
        policy = (validate_iff p).0 (unfold validate in e);
        one_operation = operation_valid-IsOperation op h (unfold authorize_bytes in ground arith);
        context = context_valid-ContextSound c (unfold authorize_bytes in ground arith);
        rule = j;
        rule_bound = omega arith;
        granted = rule_grants-Grants _ op c g;
      }
  | inr (x, e) ↦ cc (authorize_err p op c e)
]

→authorize :
    (p : List ℕ) (op : ℕ) (c : Context)
    → op < 65536
    → Authorized p op c
    → authorize (bytes p) op (some c) ≡ true
unfolding authorize_bytes
→authorize p op c h a =
    authorize_ok p op c (unfold validate in (validate_iff p).1 a.policy)
    ∙ ground (
      arith,
      IsOperation-operation_valid op h a.one_operation,
      ContextSound-context_valid c a.context,
      →any_rule_grants p (byte_at p 1) 0 op c a.rule (omega arith) (omega (arith, a.rule_bound))
          (Grants-rule_grants _ op c a.granted),
    )

-- For a uint16_t operation, `authorize` answers true exactly when the policy is well formed, the
-- operation is one of the thirteen, the context is sound, and some rule of the policy lists the
-- operation, is for the caller, has its required facts among the context's and none of its
-- forbidden ones.
pub authorize_iff :
    (p : List ℕ) (op : ℕ) (c : Context)
    → op < 65536
    → (authorize (bytes p) op (some c) ≡ true) ↔ Authorized p op c
authorize_iff p op c h = (authorize→ p op c h, →authorize p op c h)
