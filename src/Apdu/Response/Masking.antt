-- ===== src/Apdu/Response/Masking.antt =====
-- What one split of a response sends, and the pending response that it leaves.
use mathlib.Core.List.{append_assoc}
use pico_all.Base.{
  ℕ, ◌+◌, ◌-◌, ◌*◌, ◌/◌, ◌%◌, ◌<◌, ◌≡◌, refl, sym, ap, ◌∙◌, subst, true, some, List, [], ◌∷◌, ◌++◌,
  arith, length, length-append, take, drop, take-append-drop, length-take, length-drop, take-append,
  At, At-head, At-append, At-tail, At-set_two,
}
use pico_all.Bytes.{AllBytes, AllBytes-drop}
use pico_all.Apdu.Response.{Response, write_two, sent, bytes_left, split_at}

-- A response that is to be sent: `rest` and the status bytes, from offset `g` of the buffer on.
pub record Ready (r : Response) (g : ℕ) (rest : List ℕ) (s1 s2 : ℕ) : Type 0 where
  pub junk : List ℕ
  pub place : At r.rdata g ((rest ++ s1 ∷ s2 ∷ []) ++ junk)
  pub size : r.rlen ≡ length rest

-- One that is pending: the same, but for the two bytes at `rdata_gr`, which hold 61xx and are saved
-- in `rdata_bk`.
pub record Masked (r : Response) (rest : List ℕ) (s1 s2 : ℕ) : Type 0 where
  pub g : ℕ
  pub a : ℕ
  pub b : ℕ
  pub x : ℕ
  pub tl : List ℕ
  pub junk : List ℕ
  pub whole : rest ++ s1 ∷ s2 ∷ [] ≡ a ∷ b ∷ tl
  pub place : At r.rdata g (0x61 ∷ x ∷ (tl ++ junk))
  pub at_g : r.rdata_gr ≡ some g
  pub saved : r.rdata_bk ≡ a * 256 + b
  pub low : b < 256
  pub waits : r.pending ≡ true
  pub size : r.rlen ≡ length rest

-- A write of two bytes over those that stand at a place.
At-write_two :
    {d : List ℕ} {p : ℕ} (x y v w : ℕ) (xs : List ℕ)
    → At d p (x ∷ y ∷ xs)
    → At (write_two d p v w) p (v ∷ w ∷ xs)
At-write_two {d} {p} x y v w xs h =
    let e : p + 0 ≡ p = omega arith in rw e at (At-set_two {d = d} {p = p} [] xs x y v w h)

-- Putting the saved bytes back makes a pending response ready.
pub Masked→Ready :
    (r : Response) (rest : List ℕ) (s1 s2 : ℕ) (m : Masked r rest s1 s2)
    → Ready
        (record r { rdata = write_two r.rdata m.g (r.rdata_bk / 256) (r.rdata_bk % 256) })
        m.g
        rest
        s1
        s2
Masked→Ready r rest s1 s2 m =
    let high : r.rdata_bk / 256 ≡ m.a = omega (arith, m.saved, m.low) in
    let lo : r.rdata_bk % 256 ≡ m.b = omega (arith, m.saved, m.low) in
    record {
      junk = m.junk;
      place = rw (high, lo, m.whole) (At-write_two 0x61 m.x m.a m.b (m.tl ++ m.junk) m.place);
      size = m.size;
    }

-- The first two bytes of the rest of a response with its status.
two_bytes :
    (rest : List ℕ) (s1 s2 : ℕ)
    → AllBytes rest
    → s1 < 256
    → s2 < 256
    → (a b : ℕ) × (tl : List ℕ) × (rest ++ s1 ∷ s2 ∷ [] ≡ a ∷ b ∷ tl) × (b < 256)
two_bytes [] s1 s2 h h1 h2 = (s1, s2, [], refl, h2)
two_bytes (a ∷ []) s1 s2 h h1 h2 = (a, s1, s2 ∷ [], refl, h1)
two_bytes (a ∷ b ∷ rest) s1 s2 h h1 h2 = (a, b, rest ++ s1 ∷ s2 ∷ [], refl, h.1.0)

pub take_part : (xs ys : List ℕ) (n : ℕ) → n ≡ length xs → take n (xs ++ ys) ≡ xs
take_part xs ys n e = rw e (take-append xs ys)

regroup : (t dr s f junk : List ℕ) → dr ++ s ≡ f → ((t ++ dr) ++ s) ++ junk ≡ t ++ (f ++ junk)
regroup t dr s f junk e = rw (append_assoc t dr s, e, append_assoc t f junk)

-- What one split sends, and the state that it leaves.
pub record Split (r' : Response) (g n : ℕ) (rest : List ℕ) (s1 s2 : ℕ) : Type 0 where
  pub y : ℕ
  pub out : sent r'.rdata g ((n + 2) % 65536) ≡ take n rest ++ 0x61 ∷ y ∷ []
  pub left : Masked r' (drop n rest) s1 s2

module _ (r : Response) (g n : ℕ) (rest : List ℕ) (s1 s2 : ℕ) where
  pub split_at-Split :
      Ready r g rest s1 s2
      → AllBytes rest
      → s1 < 256
      → s2 < 256
      → n < length rest
      → length rest < 65534
      → Split (split_at r (g + n) n) g n rest s1 s2
  unfolding split_at
  split_at-Split v h h1 h2 lt room =
      let (a, b, tl, whole, low) = two_bytes (drop n rest) s1 s2 (AllBytes-drop n rest h) h1 h2 in
      let cut : length (take n rest) ≡ n = omega (arith, length-take n rest) in
      let start : At r.rdata g (take n rest ++ a ∷ b ∷ (tl ++ v.junk)) =
        subst (λ l. At r.rdata g l)
          (ap (λ (l : List ℕ). (l ++ s1 ∷ s2 ∷ []) ++ v.junk) (sym (take-append-drop n rest))
            ∙ regroup (take n rest) (drop n rest) (s1 ∷ s2 ∷ []) (a ∷ b ∷ tl) v.junk whole)
          v.place in
      let mid : At r.rdata (g + n) (a ∷ b ∷ (tl ++ v.junk)) =
        rw cut at (At-append (take n rest) _ start) in
      let y = bytes_left (r.rlen - n) in
      let after : At (write_two r.rdata (g + n) 0x61 y) g
          (take n rest ++ 0x61 ∷ y ∷ (tl ++ v.junk)) =
        rw cut at (At-set_two (take n rest) (tl ++ v.junk) a b 0x61 y start) in
      record {
        y = y;
        out = rw after.suffix (
            rw (← append_assoc (take n rest) (0x61 ∷ y ∷ []) (tl ++ v.junk)) (
              take_part (take n rest ++ 0x61 ∷ y ∷ []) (tl ++ v.junk) ((n + 2) % 65536)
                (omega (arith, cut, length-append (take n rest) (0x61 ∷ y ∷ [])))));
        left = record {
          g = g + n;
          a = a;
          b = b;
          x = y;
          tl = tl;
          junk = v.junk;
          whole = whole;
          place = At-write_two a b 0x61 y (tl ++ v.junk) mid;
          at_g = refl;
          saved = rw (At-head 0 mid, At-head 0 (At-tail mid));
          low = low;
          waits = refl;
          size = omega (arith, v.size, length-drop n rest);
        };
      }
