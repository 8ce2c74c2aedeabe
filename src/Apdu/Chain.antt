-- ===== src/Apdu/Chain.antt =====
-- `process_apdu`: command chaining, the class check and the dispatch. The applications are a
-- parameter: `select_app` answers whether an AID is known, and the current application's handler
-- takes the command and the reply so far and returns the reply. Bytes beyond the chained ones in
-- `chain_buf` are zero and never read, so the buffer is the list of the chained bytes.
pub mod Assembly
pub mod Invariant
use pico_all.Base.{
  ℕ, ◌+◌, bit_and, Bool, true, false, not, ◌&&◌, ◌||◌, Option, none, some, List, [], ◌++◌, leb,
  ◌==◌, if◌then◌else◌, length,
}
use pico_all.Apdu.Status.{
  Reply, sw_ok, sw_wrong_length, sw_last_chain_expected, sw_cla_not_supported, sw_file_not_found,
}

-- `sizeof(chain_buf)`
abbrev pub chain_size : ℕ
chain_size = 2038

-- A command: the four bytes of the header and the `nc` bytes of data.
pub record Command : Type 0 where
  pub cla : ℕ
  pub ins : ℕ
  pub p1 : ℕ
  pub p2 : ℕ
  pub body : List ℕ

-- `chain_header`
pub record Header : Type 0 where
  pub cla : ℕ
  pub ins : ℕ
  pub p1 : ℕ
  pub p2 : ℕ

-- `is_chaining`, the bytes between `chain_buf` and `chain_ptr`, `chain_header`, and the reply.
pub record State : Type 0 where
  pub is_chaining : Bool
  pub chain : List ℕ
  pub header : Header
  pub reply : Reply

-- The current application: whether it supports secure messaging, and its handler.
pub record App : Type 0 where
  pub supports_secure_messaging : Bool
  pub process : Command → Reply → Reply

-- What the commands reach outside this file.
pub record Apps : Type 0 where
  pub select_app : List ℕ → Bool
  pub current_app : Option App

-- `CLA & (uint8_t)~0x10`
abbrev pub base_class : ℕ → ℕ
base_class cla = bit_and cla 0xef

abbrev pub is_chained : Command → Bool
is_chained c = not (bit_and c.cla 0x10 == 0)

unfoldable pub is_select : Command → Bool
is_select c = c.ins == 0xA4 && c.p1 == 0x04 && (c.p2 == 0x00 || c.p2 == 0x04)

unfoldable pub same_header : Header → Command → Bool
same_header h c = base_class c.cla == h.cla && c.ins == h.ins && c.p1 == h.p1 && c.p2 == h.p2

abbrev pub header_of : Command → Header
header_of c = record { cla = base_class c.cla; ins = c.ins; p1 = c.p1; p2 = c.p2 }

-- `memset(chain_buf, ...); chain_ptr = NULL; is_chaining = false;`
unfoldable pub reset : State → State
reset s = record s { is_chaining = false; chain = [] }

abbrev pub answer : State → (Reply → Reply) → State
answer s f = record s { reply = f s.reply }

-- The check of the room left, and the copy of the data behind the chain.
unfoldable pub store_link : State → Command → State
store_link s c =
    if leb chain_size (length s.chain + length c.body)
    then answer (reset s) sw_wrong_length
    else record s { is_chaining = true; chain = s.chain ++ c.body; reply = sw_ok s.reply }

-- The branch of a command with the chaining bit set.
unfoldable pub chain_link : State → Command → State
chain_link s c =
    if not s.is_chaining
    then store_link (record s { chain = []; header = header_of c }) c
    else if not (same_header s.header c)
    then answer (reset s) sw_last_chain_expected
    else store_link s c

-- The check of the class, SELECT by AID, and the current application's handler.
unfoldable pub dispatch : Apps → State → Command → State
dispatch a s c =
    if not (bit_and c.cla 0x0C == 0)
      && elim a.current_app [ none ↦ true | some app ↦ not app.supports_secure_messaging ]
    then answer s sw_cla_not_supported
    else if is_select c
    then (if a.select_app c.body then answer s sw_ok else answer s sw_file_not_found)
    else elim a.current_app [
      | none ↦ answer s sw_file_not_found
      | some app ↦ answer s (app.process c)
    ]

-- The last command of a chain: its data goes behind the chain's.
unfoldable pub finish_chain : Apps → State → Command → State
finish_chain a s c =
    if leb chain_size (length s.chain + length c.body)
    then answer (reset s) sw_wrong_length
    else dispatch a (reset s) (record c { body = s.chain ++ c.body })

-- A command without the chaining bit.
unfoldable pub unchained : Apps → State → Command → State
unchained a s c =
    if s.is_chaining
    then (if is_select c || not (same_header s.header c)
        then (if not (is_select c)
            then answer (reset s) sw_last_chain_expected
            else dispatch a (reset s) c)
        else finish_chain a s c)
    else dispatch a s c

unfoldable pub process_apdu : Apps → State → Command → State
process_apdu a s c = if is_chained c then chain_link s c else unchained a s c
