-- ===== src/Store/Toy.antt =====
-- An authenticator for runs: it meets the laws of `Authenticator` and is no secure code.
use mathlib.Core.List.{append_assoc, append-nil}
use pico_all.Base.{ℕ, ◌+◌, ◌*◌, ◌%◌, sym, ap, subst, List, [], ◌∷◌, ◌++◌, arith, length, replicate}
use pico_all.Bytes.{AllBytes, ok}
use pico_all.Results.{ok_injective}
use pico_all.Store.Txn.Layout.{Authenticator}

-- A code for the runs: it sums the bytes, each weighted with its place.
abbrev pub checksum : ℕ → ℕ → List ℕ → ℕ
checksum i s [] = s % 256
checksum i s (b ∷ bs) = checksum (i + 1) (s + i * b) bs

abbrev pub toy_code : List ℕ → List ℕ
toy_code c = checksum 1 0 c % 256 ∷ length c % 256 ∷ replicate 14 7

pub toy_code-AllBytes : (c : List ℕ) → AllBytes (toy_code c)
toy_code-AllBytes c = ground arith

abbrev pub toy_auth : Authenticator
toy_auth = record {
  Ctx = List ℕ;
  start = ok [];
  update = λ c xs. ok (c ++ xs);
  finish = λ c. ok (toy_code c);
  update_nil = λ c. ap ok (append-nil c);
  update-append = λ c xs ys. ap ok (sym (append_assoc c xs ys));
  finish_length = λ c t e. ap (λ (x : List ℕ). length x) (sym (ok_injective (toy_code c) t e));
  finish-AllBytes =
      λ c t e. subst (λ x. AllBytes x) (ok_injective (toy_code c) t e) (toy_code-AllBytes c);
}
