-- ===== src/Negotiation/Checks.antt =====
-- src/negotiation.rs: the validation of ranges, names, offers, support tables and dependencies.
use Prim.Native.Char.{code}
use Prim.Native.String.{len}
use astra_shell.Prelude.{
  ℕ, String, List, [], ◌∷◌, Bool, true, false, not, ◌&&◌, ◌||◌, ltb, leb, ◌==◌, if◌then◌else◌,
  str_eq, Option, none, some, length,
}
use astra_shell.Prelude.Result.{Result, ok, ◌>>◌, ensure}
use astra_shell.Map.{Map}
use astra_shell.Map
use astra_shell.Negotiation.Support.{
  CapabilityRange, CapabilityOffer, ClientHello, ProtocolSupport, max_capabilities,
  max_capability_name_bytes, capability_semantic_state, capability_history_paging,
  capability_datagram_state, capability_state_ack, capability_semantic_diff,
  capability_clipboard_write, capability_session_objects, capability_input_resume,
  capability_input_lease, capability_tcp_forward, capability_stream_channels,
}

-- The messages of the errors.
pub data NegotiationError : Type 0 where
  legacy_version_zero client_range_invalid hint_outside_range : NegotiationError
  support_range_invalid supports_too_many capability_duplicated : NegotiationError
  capability_range_invalid invalid_capability_name : NegotiationError
  offered_too_many offer_range_invalid offer_duplicated : NegotiationError
  ranges_do_not_overlap : NegotiationError
  worker_version_unsupported worker_selected_too_many worker_selected_unknown : NegotiationError
  worker_capability_version_unsupported worker_selected_twice : NegotiationError
  server_version_outside_range server_selected_too_many selected_version_zero : NegotiationError
  server_selected_unoffered server_version_unsupported server_selected_twice : NegotiationError
  forward_requires_channels clipboard_requires_semantic paging_requires_semantic : NegotiationError
  ack_requires_semantic diff_requires_ack datagram_requires_ack : NegotiationError
  lease_requires_objects resume_requires_lease : NegotiationError

-- `(low..=high).contains(&version)`.
abbrev pub in_range : ℕ → ℕ → ℕ → Bool
in_range low high version = leb low version && leb version high

-- A bad range is an error before the hint is looked at.
advertised_range : ClientHello → Result NegotiationError (ℕ × ℕ)
advertised_range h = do
  ensure
      (ltb 0 h.minimum_protocol_version
        && leb h.minimum_protocol_version h.maximum_protocol_version)
      client_range_invalid
  ensure (in_range h.minimum_protocol_version h.maximum_protocol_version h.protocol_version)
      hint_outside_range
  ok (h.minimum_protocol_version, h.maximum_protocol_version)

legacy_range : ClientHello → Result NegotiationError (ℕ × ℕ)
legacy_range h = do
  ensure (ltb 0 h.protocol_version) legacy_version_zero
  ok (h.protocol_version, h.protocol_version)

unfoldable pub hello_version_range : ClientHello → Result NegotiationError (ℕ × ℕ)
unfolding advertised_range legacy_range
hello_version_range h =
    if h.minimum_protocol_version == 0 && h.maximum_protocol_version == 0
    then legacy_range h
    else advertised_range h

-- A character outside ASCII has only bytes that the test refuses, and a code that it refuses.
is_name_byte : ℕ → Bool
is_name_byte c = (leb b'a' c && leb c b'z') || (leb b'0' c && leb c b'9') || c == b'.' || c == b'_'

all_name_bytes : String → Bool
unfolding is_name_byte
all_name_bytes String.[] = true
all_name_bytes (String.◌∷◌ c rest) = is_name_byte (code c) && all_name_bytes rest

unfoldable pub validate_capability_name : String → Result NegotiationError Unit
unfolding all_name_bytes
validate_capability_name name =
    ensure (not (str_eq name "") && leb (len name) max_capability_name_bytes && all_name_bytes name)
      invalid_capability_name

-- The loop of `validate_support`; `names` are the names seen so far.
unfoldable pub validate_ranges :
    Map (Unit {0}) → List CapabilityRange → Result NegotiationError Unit
validate_ranges names [] = ok tt
validate_ranges names (c ∷ rest) = do
  validate_capability_name c.name
  ensure (ltb 0 c.minimum_version && leb c.minimum_version c.maximum_version)
      capability_range_invalid
  ensure (not (Map.contains_key c.name names)) capability_duplicated
  validate_ranges (Map.insert c.name tt names) rest

unfoldable pub validate_support : ProtocolSupport → Result NegotiationError Unit
validate_support s = do
  ensure (ltb 0 s.minimum_version && leb s.minimum_version s.maximum_version) support_range_invalid
  ensure (leb (length s.capabilities) max_capabilities) supports_too_many
  validate_ranges [] s.capabilities

unfoldable pub collect_offers :
    Map (ℕ × ℕ) → List CapabilityOffer → Result NegotiationError (Map (ℕ × ℕ))
collect_offers result [] = ok result
collect_offers result (o ∷ rest) = do
  validate_capability_name o.name
  ensure (ltb 0 o.minimum_version && leb o.minimum_version o.maximum_version) offer_range_invalid
  ensure (not (Map.contains_key o.name result)) offer_duplicated
  collect_offers (Map.insert o.name (o.minimum_version, o.maximum_version) result) rest

unfoldable pub validate_offers : List CapabilityOffer → Result NegotiationError (Map (ℕ × ℕ))
validate_offers offers = do
  ensure (leb (length offers) max_capabilities) offered_too_many
  collect_offers [] offers

abbrev is_v2 : Option ℕ → Bool
is_v2 none = false
is_v2 (some version) = leb 2 version

-- `capabilities.get(CAPABILITY_SEMANTIC_STATE).is_some_and(|version| *version >= 2)`.
abbrev pub semantic_v2 : Map ℕ → Bool
semantic_v2 m = is_v2 (Map.get capability_semantic_state m)

unfoldable pub validate_capability_dependencies : Map ℕ → Result NegotiationError Unit
validate_capability_dependencies m = do
  ensure
      (not (Map.contains_key capability_tcp_forward m)
        || Map.contains_key capability_stream_channels m)
      forward_requires_channels
  ensure (not (Map.contains_key capability_clipboard_write m) || semantic_v2 m)
      clipboard_requires_semantic
  ensure (not (Map.contains_key capability_history_paging m) || semantic_v2 m)
      paging_requires_semantic
  ensure (not (Map.contains_key capability_state_ack m) || semantic_v2 m) ack_requires_semantic
  ensure
      (not (Map.contains_key capability_semantic_diff m)
        || (Map.contains_key capability_state_ack m && semantic_v2 m))
      diff_requires_ack
  ensure
      (not (Map.contains_key capability_datagram_state m)
        || (Map.contains_key capability_state_ack m
            && Map.contains_key capability_session_objects m
            && semantic_v2 m))
      datagram_requires_ack
  ensure
      (not (Map.contains_key capability_input_lease m)
        || Map.contains_key capability_session_objects m)
      lease_requires_objects
  ensure
      (not (Map.contains_key capability_input_resume m)
        || Map.contains_key capability_input_lease m)
      resume_requires_lease
