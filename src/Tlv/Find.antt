-- ===== src/Tlv/Find.antt =====
-- `tlv_find_tag` ends on every input, and over written items it is a lookup.
use pico_all.Base.{
  ℕ, zero, suc, ◌+◌, ◌-◌, ◌<◌, ◌≡◌, refl, sym, ap, ◌∙◌, inl, inr, Bool, true, false, Option, none,
  some, List, [], ◌∷◌, ◌++◌, arith, leb, ◌==◌, if◌then◌else◌, Bool-cases, Option-cases, length, At,
  At-append, At-start,
}
use pico_all.Bytes.{bytes}
use pico_all.Tlv.{Item, Walked, walk_at, find_loop, find_tag}
use pico_all.Tlv.Walk.{walk_at-Sound}
use pico_all.Tlv.RoundTrip.{encode, IsItem, walk_at-encode}

find_loop_end :
    (n : ℕ) (d : List ℕ) (p itag : ℕ)
    → (walk_at d p).found ≡ none
    → find_loop (suc n) d p itag ≡ some none
unfolding find_loop
find_loop_end n d p itag e = rw (e, find_loop)

find_loop_item :
    (n : ℕ) (d : List ℕ) (p itag : ℕ) {item : Item}
    → (walk_at d p).found ≡ some item
    → find_loop (suc n) d p itag
      ≡ (if itag == item.tag then some (some item.value) else find_loop n d (walk_at d p).pos itag)
unfolding find_loop
find_loop_item n d p itag e = rw (e, find_loop)

find_tag_of_loop :
    (d : List ℕ) (itag : ℕ) {r : Option (List ℕ)}
    → find_loop (suc (length d)) d 0 itag ≡ some r
    → find_tag (bytes d) itag ≡ r
unfolding find_tag
find_tag_of_loop d itag e = rw (e, find_tag)

-- The loop ends by its own tests when it has one round more than there are bytes left.
find_loop_total :
    (n : ℕ) (d : List ℕ) (p itag : ℕ)
    → length d - p < n
    → (r : Option (List ℕ)) × (find_loop n d p itag ≡ some r)
find_loop_total zero d p itag h = absurd (omega arith)
find_loop_total (suc n) d p itag h = elim (Option-cases (walk_at d p).found) [
  | inl e ↦ (none, find_loop_end n d p itag e)
  | inr (item, e) ↦
      let s = walk_at-Sound d p item e in
      let (r, ih) =
        find_loop_total n d (walk_at d p).pos itag (omega (arith, s.forward, s.within)) in
      elim (Bool-cases (itag == item.tag)) [
        | inl hit ↦ (some item.value, find_loop_item n d p itag e ∙ rw hit)
        | inr miss ↦ (r, find_loop_item n d p itag e ∙ rw miss ih)
      ]
]

-- The loop of `tlv_find_tag` ends on every input within one round more than there are bytes, and
-- the answer of `tlv_find_tag` is the loop's.
pub find_tag_total :
    (d : List ℕ) (itag : ℕ) → find_loop (suc (length d)) d 0 itag ≡ some (find_tag (bytes d) itag)
find_tag_total d itag =
    let (r, e) = find_loop_total (suc (length d)) d 0 itag (omega arith) in
    e ∙ ap some (sym (find_tag_of_loop d itag e))

abbrev pub encode_all : List Item → List ℕ
encode_all [] = []
encode_all (i ∷ is) = encode i ++ encode_all is

abbrev pub AllItems : List Item → Type 0
AllItems [] = Unit {0}
AllItems (i ∷ is) = IsItem i × AllItems is

-- The value of the first item with the tag.
pub lookup_tag : List Item → ℕ → Option (List ℕ)
lookup_tag [] itag = none
lookup_tag (i ∷ is) itag = if itag == i.tag then some i.value else lookup_tag is itag

find_loop-encode_all :
    (n : ℕ) (d : List ℕ) (p : ℕ) (is : List Item) (itag : ℕ)
    → AllItems is
    → At d p (encode_all is)
    → length d - p < n
    → find_loop n d p itag ≡ some (lookup_tag is itag)
unfolding lookup_tag
find_loop-encode_all zero d p is itag v h lt = absurd (omega arith)
find_loop-encode_all (suc n) d p [] itag v h lt =
    let end : leb (length d) p ≡ true = ground (arith, h.size) in
    find_loop_end n d p itag (unfold walk_at in rw end)
find_loop-encode_all (suc n) d p (i ∷ is) itag v h lt =
    let w = walk_at-encode d p i (encode_all is) v.0 h in
    let found : (walk_at d p).found ≡ some i = ap (λ (w : Walked). w.found) w in
    let moved : (walk_at d p).pos ≡ p + length (encode i) = ap (λ (w : Walked). w.pos) w in
    let s = walk_at-Sound d p i found in
    let ih =
      find_loop-encode_all n d (p + length (encode i)) is itag v.1
        (At-append (encode i) (encode_all is) h) (omega (arith, moved, s.forward, s.within)) in
    find_loop_item n d p itag found ∙ rw moved (rw ih (ap-if (itag == i.tag)))
  where
    ap-if :
        (b : Bool)
        → (if b then some (some i.value) else some (lookup_tag is itag))
          ≡ some (if b then some i.value else lookup_tag is itag)
    ap-if true = refl
    ap-if false = refl

-- Over the bytes of any list of well-formed items, `tlv_find_tag` returns the value of the first
-- item with the tag, and fails exactly if there is none.
pub find_tag-encode_all :
    (is : List Item) (itag : ℕ)
    → AllItems is
    → find_tag (bytes (encode_all is)) itag ≡ lookup_tag is itag
find_tag-encode_all is itag v = find_tag_of_loop (encode_all is) itag (
    find_loop-encode_all (suc (length (encode_all is))) (encode_all is) 0 is itag v (At-start _)
      (omega arith))
