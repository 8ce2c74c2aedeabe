-- ===== src/Apdu/Chain/Assembly.antt =====
-- A chain of commands is dispatched as one.
use mathlib.Core.List.{append-nil, append_assoc}
use pico_all.Base.{
  ℕ, ◌+◌, ◌<◌, bit_and, bit_or, ◌≡◌, refl, ap, ◌∙◌, true, false, not, List, [], ◌∷◌, ◌++◌, arith,
  leb, ◌==◌, ==_iff, length, length-append, passes_below, passes_below-lt,
}
use pico_all.Apdu.Status.{set_res_sw, sw_ok}
use pico_all.Apdu.Chain.{
  Command, Header, State, Apps, base_class, is_chained, is_select, same_header, header_of, reset,
  store_link, chain_link, dispatch, finish_chain, unchained, process_apdu,
}

-- The class bits of a link, for every class byte.
base_class_table : passes_below (λ x. base_class (bit_or x 0x10) == base_class x) 256 ≡ true
unfolding passes_below
base_class_table = refl

chained_table : passes_below (λ x. not (bit_and (bit_or x 0x10) 0x10 == 0)) 256 ≡ true
unfolding passes_below
chained_table = refl

-- A link that carries the data `d` for the command `c`.
abbrev pub link : Command → List ℕ → Command
link c d = record c { cla = bit_or c.cla 0x10; body = d }

-- The data of the links, in the order in which they come.
abbrev pub joined : List (List ℕ) → List ℕ
joined [] = []
joined (d ∷ ds) = d ++ joined ds

-- The state behind the links of `c`, one after the other.
unfoldable pub send_links : Apps → State → Command → List (List ℕ) → State
send_links a s c [] = s
send_links a s c (d ∷ ds) = send_links a (process_apdu a s (link c d)) c ds

-- A chain of the command `c` with the bytes `x` so far.
abbrev pub opened : State → Command → List ℕ → State
opened s c x = record s {
  is_chaining = true;
  chain = x;
  header = header_of c;
  reply = sw_ok s.reply;
}

is_chained-link : (c : Command) (d : List ℕ) → c.cla < 256 → is_chained (link c d) ≡ true
is_chained-link c d h = passes_below-lt _ 256 c.cla h chained_table

header-link : (c : Command) (d : List ℕ) → c.cla < 256 → header_of (link c d) ≡ header_of c
header-link c d h =
    let e : base_class (bit_or c.cla 0x10) ≡ base_class c.cla = (==_iff _ _).0 (
      passes_below-lt (λ x. base_class (bit_or x 0x10) == base_class x) 256 c.cla h
        base_class_table) in
    ap (λ (b : ℕ). record header { cla = b }) e
  where
    header : Header
    header = header_of c

same_header-link :
    (c : Command) (d : List ℕ) → c.cla < 256 → same_header (header_of c) (link c d) ≡ true
unfolding same_header
same_header-link c d h =
    let e : base_class (bit_or c.cla 0x10) ≡ base_class c.cla =
      ap (λ (x : Header). x.cla) (header-link c d h) in
    ground arith

first_link :
    (a : Apps) (s : State) (c : Command) (d : List ℕ)
    → c.cla < 256
    → s.is_chaining ≡ false
    → length d < 2038
    → process_apdu a s (link c d) ≡ opened s c d
unfolding process_apdu chain_link store_link
first_link a s c d h idle room =
    let fits : leb 2038 (0 + length d) ≡ false = ground arith in
    rw (is_chained-link c d h, idle, fits, header-link c d h)

next_link :
    (a : Apps) (s : State) (c : Command) (x d : List ℕ)
    → c.cla < 256
    → length x + length d < 2038
    → process_apdu a (opened s c x) (link c d) ≡ opened s c (x ++ d)
unfolding process_apdu chain_link store_link set_res_sw
next_link a s c x d h room =
    let fits : leb 2038 (length x + length d) ≡ false = ground arith in
    rw (is_chained-link c d h, same_header-link c d h, fits)

next_links :
    (a : Apps) (s : State) (c : Command) (x : List ℕ) (ds : List (List ℕ))
    → c.cla < 256
    → length x + length (joined ds) < 2038
    → send_links a (opened s c x) c ds ≡ opened s c (x ++ joined ds)
unfolding send_links
next_links a s c x [] h room = rw append-nil
next_links a s c x (d ∷ ds) h room =
    rw (next_link a s c x d h (omega (arith, length-append d (joined ds)))) (
      next_links a s c (x ++ d) ds h (omega (arith, length-append d (joined ds), length-append x d))
      ∙ rw append_assoc)

-- The last command of the chain, to which the chained bytes are given back.
last_command :
    (a : Apps) (s : State) (c : Command) (x : List ℕ)
    → is_chained c ≡ false
    → is_select c ≡ false
    → length x + length c.body < 2038
    → process_apdu a (opened s c x) c
      ≡ dispatch a
          (record s {
            is_chaining = false;
            chain = [];
            header = header_of c;
            reply = sw_ok s.reply;
          })
          (record c { body = x ++ c.body })
unfolding process_apdu unchained finish_chain reset
last_command a s c x plain other room =
    let fits : leb 2038 (length x + length c.body) ≡ false = ground arith in
    let same : same_header (header_of c) c ≡ true = unfold same_header in ground arith in
    rw (plain, other, same, fits)

-- The links of a command, sent one after the other from a state with no chain open, leave a state
-- in which the command itself is dispatched with the data of all the links, in order, before its
-- own, as long as all the data together is shorter than 2038 bytes, and the command is no SELECT.
pub process_apdu-links :
    (a : Apps) (s : State) (c : Command) (d : List ℕ) (ds : List (List ℕ))
    → c.cla < 256
    → is_chained c ≡ false
    → is_select c ≡ false
    → s.is_chaining ≡ false
    → length (joined (d ∷ ds)) + length c.body < 2038
    → process_apdu a (send_links a s c (d ∷ ds)) c
      ≡ dispatch a
          (record s {
            is_chaining = false;
            chain = [];
            header = header_of c;
            reply = sw_ok s.reply;
          })
          (record c { body = joined (d ∷ ds) ++ c.body })
unfolding send_links
process_apdu-links a s c d ds h plain other idle room =
    rw
      (
        first_link a s c d h idle (omega (arith, length-append d (joined ds))),
        next_links a s c d ds h (omega (arith, length-append d (joined ds))),
      )
      (last_command a s c (d ++ joined ds) plain other room)
