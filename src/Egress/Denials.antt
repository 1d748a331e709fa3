-- ===== src/Egress/Denials.antt =====
-- The bounded record of refused connections, and the slots of the handlers
-- (crates/clawcrate-sandbox/src/egress_proxy.rs).
use claw_crate.Base.{
  ℕ, zero, suc, ◌+◌, Text, Option, none, some, List, [], ◌∷◌, ◌++◌, length, ltb, leb, if◌then◌else◌,
  min,
}

pub data EgressDenialReason : Type 0 where
  domain_not_allowed : EgressDenialReason
  sni_rejected : Text → EgressDenialReason

pub record EgressDenial : Type 0 where
  pub host : Text
  pub port : ℕ
  pub reason : EgressDenialReason

pub record DenialBuffer : Type 0 where
  pub denials : List EgressDenial
  pub dropped : ℕ

abbrev pub max_recorded_denials : ℕ
max_recorded_denials = 256

-- `usize::MAX` on the 64-bit targets.
abbrev pub usize_max : ℕ
usize_max = 0xFFFFFFFFFFFFFFFF

unfoldable pub record_denial : EgressDenial → DenialBuffer → DenialBuffer
record_denial denial buffer =
    if leb max_recorded_denials (length buffer.denials)
    then record buffer { dropped = min (buffer.dropped + 1) usize_max }
    else record buffer { denials = buffer.denials ++ denial ∷ [] }

-- What is returned, and the buffer afterwards.
unfoldable pub drain : DenialBuffer → (List EgressDenial × ℕ) × DenialBuffer
drain buffer = ((buffer.denials, buffer.dropped), record { denials = []; dropped = 0 })

abbrev pub max_active_proxy_handlers : ℕ
max_active_proxy_handlers = 64

-- The counter afterwards if a slot was free.
unfoldable pub try_acquire_handler_slot : ℕ → ℕ → Option ℕ
try_acquire_handler_slot active max_active_handlers =
    if ltb active max_active_handlers then some (active + 1) else none

-- `fetch_sub(1)` on a 64-bit counter.
unfoldable pub release_handler_slot : ℕ → ℕ
release_handler_slot zero = usize_max
release_handler_slot (suc active) = active
