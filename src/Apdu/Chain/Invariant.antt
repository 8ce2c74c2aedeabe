-- ===== src/Apdu/Chain/Invariant.antt =====
-- The chaining buffer never overflows.
use pico_all.Base.{
  ◌+◌, ◌<◌, ◌≡◌, refl, sym, ◌∙◌, Bool, true, false, not, ◌||◌, [], arith, leb, if◌then◌else◌,
  length, length-append,
}
use pico_all.Apdu.Status.{Reply, sw_wrong_length, sw_last_chain_expected}
use pico_all.Apdu.Chain.{
  chain_size, Command, State, Apps, is_chained, is_select, same_header, reset, answer, store_link,
  chain_link, dispatch, finish_chain, unchained, process_apdu,
}

-- The chained bytes leave room in `chain_buf`, and there are none outside a chain.
pub record IsChain (s : State) : Type 0 where
  pub room : length s.chain < 2038
  pub idle : s.is_chaining ≡ false → s.chain ≡ []

reset-IsChain : (s : State) → IsChain (reset s)
unfolding reset
reset-IsChain s = record { room = omega arith; idle = λ _. refl }

store_link-IsChain : (s : State) (c : Command) → IsChain (store_link s c)
unfolding store_link reset
store_link-IsChain s c = record {
  room = ground (arith, length-append s.chain c.body);
  idle = ground arith;
}

answer-reset-IsChain : (s : State) (f : Reply → Reply) → IsChain (answer (reset s) f)
unfolding reset
answer-reset-IsChain s f = record { room = omega arith; idle = λ _. refl }

if-IsChain : (b : Bool) (s t : State) → IsChain s → IsChain t → IsChain (if b then s else t)
if-IsChain true s t v w = v
if-IsChain false s t v w = w

chain_link-IsChain : (s : State) (c : Command) → IsChain (chain_link s c)
unfolding chain_link
chain_link-IsChain s c = if-IsChain (not s.is_chaining) _ _ (store_link-IsChain _ c) (
    if-IsChain (not (same_header s.header c)) _ _ (answer-reset-IsChain s sw_last_chain_expected)
      (store_link-IsChain s c))

-- The dispatch changes the reply alone.
pub dispatch_keeps :
    (a : Apps) (s : State) (c : Command)
    → ((dispatch a s c).is_chaining ≡ s.is_chaining)
      × ((dispatch a s c).chain ≡ s.chain)
      × ((dispatch a s c).header ≡ s.header)
unfolding dispatch
dispatch_keeps a s c = ground arith

dispatch-IsChain : (a : Apps) (s : State) (c : Command) → IsChain s → IsChain (dispatch a s c)
dispatch-IsChain a s c v =
    let (on, chain, h) = dispatch_keeps a s c in
    record { room = rw chain v.room; idle = λ off. chain ∙ v.idle (sym on ∙ off) }

unchained-IsChain : (a : Apps) (s : State) (c : Command) → IsChain s → IsChain (unchained a s c)
unfolding unchained finish_chain
unchained-IsChain a s c v =
    if-IsChain s.is_chaining _ _
      (if-IsChain (is_select c || not (same_header s.header c)) _ _
        (if-IsChain (not (is_select c)) _ _ (answer-reset-IsChain s sw_last_chain_expected)
          (dispatch-IsChain a (reset s) c (reset-IsChain s)))
        (if-IsChain (leb chain_size (length s.chain + length c.body)) _ _
          (answer-reset-IsChain s sw_wrong_length)
          (dispatch-IsChain a (reset s) _ (reset-IsChain s))))
      (dispatch-IsChain a s c v)

-- Whatever command comes, in whatever order, the bytes that are chained stay below the size of the
-- buffer, and there are none unless a chain is open.
pub process_apdu-IsChain :
    (a : Apps) (s : State) (c : Command) → IsChain s → IsChain (process_apdu a s c)
unfolding process_apdu
process_apdu-IsChain a s c v =
    if-IsChain (is_chained c) _ _ (chain_link-IsChain s c) (unchained-IsChain a s c v)
