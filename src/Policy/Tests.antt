-- ===== src/Policy/Tests.antt =====
-- Runs of the policy code, and its theorems at concrete inputs.
use pico_all.Base.{
  ℕ, ◌≡◌, refl, sym, ap, ◌∙◌, ◌↔◌, true, Option, some, List, [], ◌∷◌, ◌++◌, arith, length,
  replicate, length-replicate,
}
use pico_all.Bytes.{wrong_length, wrong_data, ok, err, bytes}
use pico_all.Policy.{
  read_rule, nth_rule, rule_valid, rules_valid, validate_bytes, validate, policy_hash, Context,
  operation_valid, context_valid, rule_grants, any_rule_grants, authorize,
}
use pico_all.Policy.Validate.{WellFormed, validate_iff}
use pico_all.Policy.Authorize.{Authorized, authorize_iff}
use pico_all.Policy.Hash.{Outcome, policy_hash-Outcome}

-- One rule: caller 2 may sign with user verification, and not once the device is in a fault state.
abbrev sign_rule : List ℕ
sign_rule = 0 ∷ 8 ∷ 0 ∷ 0 ∷ 0 ∷ 2 ∷ 0 ∷ 0 ∷ 1 ∷ 0 ∷ 0 ∷ 2 ∷ 0 ∷ 0 ∷ []

abbrev sign_policy : List ℕ
sign_policy = 1 ∷ 1 ∷ sign_rule

abbrev verified : Context
verified = record { facts = 3; session_epoch = 5; facts_epoch = 5; caller_namespace = 2 }

validates : validate (bytes sign_policy) ≡ ok tt
unfolding validate rules_valid nth_rule read_rule rule_valid
validates = refl

too_short : validate (bytes (1 ∷ 2 ∷ sign_rule)) ≡ err wrong_length
unfolding validate
too_short = refl

signs : authorize (bytes sign_policy) 8 (some verified) ≡ true
unfolding authorize validate_bytes rules_valid nth_rule read_rule rule_valid operation_valid
    context_valid any_rule_grants rule_grants
signs = refl

authorize_iff_example :
    (authorize (bytes sign_policy) 8 (some verified) ≡ true) ↔ Authorized sign_policy 8 verified
authorize_iff_example = authorize_iff sign_policy 8 verified (omega arith)

signs_Authorized : Authorized sign_policy 8 verified
signs_Authorized = authorize_iff_example.0 signs

abbrev zero_digest : List ℕ → Option (List ℕ)
zero_digest p = some (replicate 32 (length p))

zero_digest-length : (m digest : List ℕ) → zero_digest m ≡ some digest → length digest ≡ 32
zero_digest-length m digest e =
    ap (λ (l : List ℕ). length l) (sym (unwrapped (replicate 32 (length m)) digest e))
    ∙ length-replicate 32 (length m)
  where
    unwrapped : (x y : List ℕ) → some x ≡ some y → x ≡ y
    unwrapped x y e = cc

-- A buffer with old bytes, and one byte behind it.
abbrev old : List ℕ
old = replicate 16 255 ++ 77 ∷ []

hashes : policy_hash zero_digest old (bytes sign_policy) ≡ (replicate 16 16 ++ 77 ∷ [], ok tt)
unfolding policy_hash validate validate_bytes rules_valid nth_rule read_rule rule_valid
hashes = refl

clears : policy_hash zero_digest old (bytes (9 ∷ [])) ≡ (replicate 16 0 ++ 77 ∷ [], err wrong_data)
unfolding policy_hash validate validate_bytes
clears = refl

validate_iff_example : (validate (bytes sign_policy) ≡ ok tt) ↔ WellFormed sign_policy
validate_iff_example = validate_iff sign_policy

policy_hash-Outcome_example :
    Outcome zero_digest old (bytes sign_policy) (policy_hash zero_digest old (bytes sign_policy))
policy_hash-Outcome_example =
    policy_hash-Outcome zero_digest zero_digest-length old (bytes sign_policy)
