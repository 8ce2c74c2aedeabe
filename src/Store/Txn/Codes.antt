-- ===== src/Store/Txn/Codes.antt =====
-- The code of a record does not depend on how the record is read, and equal codes compare equal.
use pico_all.Results.{bind_ok, bind_same}
use pico_all.Base.{
  ℕ, zero, suc, ◌+◌, ◌-◌, ◌≤◌, ◌<◌, bit_or, bit_xor, min, ◌≡◌, refl, sym, ap, ◌∙◌, inl, inr, true,
  List, [], ◌∷◌, ◌++◌, arith, ltb, ◌==◌, if◌then◌else◌, ==_iff, Bool-cases, length, length-append,
  take, drop, take-append, take_all, drop-drop, drop-append_self, passes_below, passes_below-lt,
}
use pico_all.Bytes.{AllBytes, ok, ◌>>=◌}
use pico_all.Store.Files.{file_read_at}
use pico_all.Store.Txn.Layout.{Authenticator, tag_difference, tag_equal}
use pico_all.Store.Txn.Recover.{auth_buffer, auth_chunks, auth_record}

take_split : (a b : ℕ) (xs : List ℕ) → take a xs ++ take b (drop a xs) ≡ take (a + b) xs
take_split zero b xs = let e : 0 + b ≡ b = omega arith in rw e refl
take_split (suc a) zero [] = let e : suc a + 0 ≡ suc a = omega arith in rw e refl
take_split (suc a) (suc b) [] = let e : suc a + suc b ≡ suc (a + suc b) = omega arith in rw e refl
take_split (suc a) b (x ∷ xs) =
    let e : suc a + b ≡ suc (a + b) = omega arith in
    rw e (ap (λ (l : List ℕ). x ∷ l) (take_split a b xs))

pub file_read_at-ok :
    (d : List ℕ) (offset n : ℕ)
    → offset + n ≤ length d
    → file_read_at d offset n ≡ ok (take n (drop offset d))
unfolding file_read_at
file_read_at-ok d offset n h = ground arith

-- Reading a file that was written in parts.
pub read_front : (xs ys : List ℕ) (n : ℕ) → n ≡ length xs → file_read_at (xs ++ ys) 0 n ≡ ok xs
read_front xs ys n e =
    file_read_at-ok (xs ++ ys) 0 n (omega (arith, e, length-append xs ys))
    ∙ rw e (ap ok (take-append xs ys))

pub read_back :
    (xs ys : List ℕ) (n k : ℕ) → n ≡ length xs → k ≡ length ys → file_read_at (xs ++ ys) n k ≡ ok ys
read_back xs ys n k e f =
    file_read_at-ok (xs ++ ys) n k (omega (arith, e, f, length-append xs ys))
    ∙ rw (e, f, drop-append_self xs ys) (ap ok (take_all ys))

pub read_all : (xs : List ℕ) (n : ℕ) → n ≡ length xs → file_read_at xs 0 n ≡ ok xs
read_all xs n e = file_read_at-ok xs 0 n (omega (arith, e)) ∙ rw e (ap ok (take_all xs))

module _ (auth : Authenticator) where
  update_parts :
      (file : List ℕ) (a n offset : ℕ) (c : auth.Ctx)
      → offset + a ≤ n
      → (auth.update c (take a (drop (32 + offset) file)) >>= λ c'.
          auth.update c' (take (n - (offset + a)) (drop (32 + (offset + a)) file)))
        ≡ auth.update c (take (n - offset) (drop (32 + offset) file))
  update_parts file a n offset c le =
      let e : n - offset ≡ a + (n - (offset + a)) = omega arith in
      let e' : 32 + (offset + a) ≡ 32 + offset + a = omega arith in
      rw
        (
          e,
          e',
          sym (drop-drop file (32 + offset) a),
          sym (take_split a (n - (offset + a)) (drop (32 + offset) file)),
        )
        (sym (auth.update-append c _ _))

  pub auth_chunks-update :
      (rounds : ℕ) (file : List ℕ) (n offset : ℕ) (c : auth.Ctx)
      → n ≤ offset + rounds
      → offset ≤ n
      → 32 + n ≤ length file
      → auth_chunks auth rounds file n offset c
        ≡ auth.update c (take (n - offset) (drop (32 + offset) file))
  unfolding auth_chunks
  auth_chunks-update zero file n offset c h le fits =
      let e : n - offset ≡ 0 = omega arith in rw e (sym (auth.update_nil c))
  auth_chunks-update (suc rounds) file n offset c h le fits = elim (Bool-cases (ltb offset n)) [
    | inl more ↦
        let fit : (32 + offset) + min 256 (n - offset) ≤ length file = ground arith in
        let near : n ≤ offset + min 256 (n - offset) + rounds = ground arith in
        let low : offset + min 256 (n - offset) ≤ n = ground arith in
        rw (more, file_read_at-ok file (32 + offset) (min 256 (n - offset)) fit)
          (bind_same _ _ _ (λ c'.
              auth_chunks-update rounds file n (offset + min 256 (n - offset)) c' near low fits)
            ∙ update_parts file (min 256 (n - offset)) n offset c low)
    | inr end ↦ let e : n - offset ≡ 0 = ground arith in rw (end, e) (sym (auth.update_nil c))
  ]

  update_if :
      (c : auth.Ctx) (xs : List ℕ)
      → (if ltb 0 (length xs) then auth.update c xs else ok c) ≡ auth.update c xs
  update_if c [] = sym (auth.update_nil c)
  update_if c (x ∷ xs) = let e : ltb 0 (length (x ∷ xs)) ≡ true = ground arith in rw e refl

  pub auth_buffer-update :
      (first second : List ℕ)
      → auth_buffer auth first second
        ≡ (auth.start >>= λ c. auth.update c first >>= λ c'. auth.update c' second >>= auth.finish)
  unfolding auth_buffer
  auth_buffer-update first second = bind_same auth.start _ _ λ c.
      bind_same (auth.update c first) _ _ λ c'. ap (λ r. r >>= auth.finish) (update_if c' second)

  chunks_all :
      (file : List ℕ) (n : ℕ) (c : auth.Ctx)
      → 32 + n ≤ length file
      → auth_chunks auth n file n 0 c ≡ auth.update c (take n (drop 32 file))
  chunks_all file n c fits =
      let e : n - 0 ≡ n = omega arith in
      auth_chunks-update n file n 0 c (omega arith) (omega arith) fits
      ∙ ap (λ k. auth.update c (take k (drop 32 file))) e

  -- The code that is computed over a record's file in pieces of 256 bytes is the code that is
  -- computed over the header and the payload in memory, if the file holds the whole payload.
  pub auth_record-auth_buffer :
      (file header : List ℕ) (n : ℕ)
      → 32 + n ≤ length file
      → auth_record auth file header n ≡ auth_buffer auth header (take n (drop 32 file))
  unfolding auth_record
  auth_record-auth_buffer file header n fits =
      (bind_same auth.start _ _ λ c.
        bind_same (auth.update c header) _ _
          λ c'. ap (λ r. r >>= auth.finish) (chunks_all file n c' fits))
      ∙ sym (auth_buffer-update header (take n (drop 32 file)))

  pub auth_buffer-finish :
      (first second t : List ℕ)
      → auth_buffer auth first second ≡ ok t
      → (c : auth.Ctx) × (auth.finish c ≡ ok t)
  auth_buffer-finish first second t e =
      let one = bind_ok auth.start _ t (sym (auth_buffer-update first second) ∙ e) in
      let two = bind_ok (auth.update one.0 first) _ t one.2 in
      let three = bind_ok (auth.update two.0 second) _ t two.2 in (three.0, three.2)

tag_difference_self : (t : List ℕ) → AllBytes t → tag_difference 0 t t ≡ 0
unfolding tag_difference passes_below
tag_difference_self [] h = refl
tag_difference_self (b ∷ t) h = rw (xor_self b h.0) (tag_difference_self t h.1)
  where
    table : passes_below (λ x. bit_or 0 (bit_xor x x) == 0) 256 ≡ true
    table = refl

    xor_self : (b : ℕ) → b < 256 → bit_or 0 (bit_xor b b) ≡ 0
    xor_self b h = (==_iff _ _).0 (passes_below-lt (λ x. bit_or 0 (bit_xor x x) == 0) 256 b h table)

-- A code of bytes compares equal to itself.
pub tag_equal_self : (t : List ℕ) → AllBytes t → tag_equal t t ≡ true
unfolding tag_equal
tag_equal_self t h = rw (tag_difference_self t h)
