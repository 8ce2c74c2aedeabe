-- ===== src/Policy/Hash.antt =====
-- What `policy_hash` leaves in the caller's buffer.
use pico_all.Base.{
  ℕ, ◌≡◌, refl, ap, ◌∙◌, Option, none, some, List, arith, length, take, drop, replicate,
  length-take, take_front, drop_front,
}
use pico_all.Bytes.{Code, err_null_param, exec_error, Result, ok, err, ByteArray, null, bytes}
use pico_all.Policy.{validate_bytes, validate, write_front, policy_hash}
use pico_all.Policy.Validate.{WellFormed, validate_iff}

-- Sixteen bytes in front of what stood behind the buffer before the call: zeros with an error, and
-- the front of the digest of a good policy without one.
pub data Outcome (sha256 : List ℕ → Option (List ℕ)) (hash : List ℕ) (policy : ByteArray)
    (result : List ℕ × Result (Unit {0})) : Type 0 where
  failed :
      (c : Code)
      → result.1 ≡ err c
      → take 16 result.0 ≡ replicate 16 0
      → drop 16 result.0 ≡ drop 16 hash
      → Outcome sha256 hash policy result
  hashed :
      (p digest : List ℕ)
      → policy ≡ bytes p
      → WellFormed p
      → result.1 ≡ ok tt
      → sha256 p ≡ some digest
      → take 16 result.0 ≡ take 16 digest
      → drop 16 result.0 ≡ drop 16 hash
      → Outcome sha256 hash policy result

digest_front : (digest : List ℕ) → length digest ≡ 32 → length (take 16 digest) ≡ 16
digest_front digest size = omega (arith, length-take 16 digest, size)

copied_front :
    (front hash : List ℕ)
    → length front ≡ 16
    → (take 16 (write_front front (write_front (replicate 16 0) hash)) ≡ front)
      × (drop 16 (write_front front (write_front (replicate 16 0) hash)) ≡ drop 16 hash)
copied_front front hash size =
    let behind = write_front (replicate 16 0) hash in
    (
      take_front front (drop (length front) behind) 16 size,
      drop_front front (drop (length front) behind) 16 size ∙ ap (λ n. drop n behind) size,
    )

-- For a digest of 32 bytes, and a buffer with any bytes in it and any bytes behind it: when
-- policy_hash returns an error the buffer holds sixteen zeros, so the hash fails closed, and
-- otherwise it holds the first sixteen bytes of the digest of a well-formed policy; what stands
-- behind the buffer stays.
pub policy_hash-Outcome :
    (sha256 : List ℕ → Option (List ℕ))
    → ((m digest : List ℕ) → sha256 m ≡ some digest → length digest ≡ 32)
    → (hash : List ℕ) (policy : ByteArray)
    → Outcome sha256 hash policy (policy_hash sha256 hash policy)
unfolding policy_hash validate
policy_hash-Outcome sha256 digest_length hash (null n) = failed err_null_param refl refl refl
policy_hash-Outcome sha256 digest_length hash (bytes p) = go (validate_bytes p) refl (sha256 p) refl
  where
    behind : List ℕ
    behind = write_front (replicate 16 0) hash

    go :
        (r : Result (Unit {0}))
        → validate_bytes p ≡ r
        → (full : Option (List ℕ)) → sha256 p ≡ full
        → Outcome sha256 hash (bytes p) (elim r as (λ _. List ℕ × Result (Unit {0})) [
          | err c ↦ (write_front (replicate 16 0) hash, err c)
          | ok u ↦ elim full as (λ _. List ℕ × Result (Unit {0})) [
            | none ↦ (write_front (replicate 16 0) hash, err exec_error)
            | some digest ↦
                (write_front (take 16 digest) (write_front (replicate 16 0) hash), ok tt)
          ]
        ])
    go (err c) v full s = failed c refl refl refl
    go (ok u) v none s = failed exec_error refl refl refl
    go (ok u) v (some digest) s =
        let (front, rest) =
          copied_front (take 16 digest) hash (digest_front digest (digest_length p digest s)) in
        hashed p digest refl ((validate_iff p).0 v) refl s front rest
